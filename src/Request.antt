-- ===== src/Request.antt =====
-- What travels between the client and its nodes: parameters, streams, the client's transaction
-- state, and the request forwarder (RequestForwarder.hpp, DataProxyClient.hpp).
use data_proxy_library.Common.{ℕ, String, Bool, Option, none, some, List, ◌++◌, drop}
use data_proxy_library.Common.Dict.{Dict, insert}
use data_proxy_library.Common.Exec.{ok, Exec}

-- std::map< std::string, std::string >
abbrev pub Params : Type 0
Params = Dict String

abbrev pub Bytes : Type 0
Bytes = List ℕ

-- A std::istream: all its bytes, and the position of its next read.
pub record Input : Type 0 where
  pub bytes : Bytes
  pub pos : ℕ

-- clear() and seekg( pos )
abbrev pub seek : ℕ → Input → Input
seek pos i = record i { pos = pos }

-- What a reader gets from the stream.
abbrev pub unread : Input → Bytes
unread i = drop i.pos i.bytes

-- The transaction state of a client, and the world that its nodes act on.
pub record Session (W : Type 0) : Type 0 where
  pub inside : Bool
  pub pending_commits : List String
  pub pending_rollbacks : List String
  pub auto_committed : List String
  pub world : W

abbrev pub on_world : {W A : Type 0} → Exec W A → Exec (Session W) A
on_world m s = ((m s.world).0, record s { world = (m s.world).1 })

-- A std::ostream is what has been written to it; a loading action has one beside the session.
abbrev pub Loading : Type 0 → Type 0
Loading W = Bytes × Session W

-- The calls by which a node reaches another one, by name, and where a store by the node of a name
-- leaves the position of the stream that it has been given, whatever that is.
pub record Forwarder (W : Type 0) : Type 0 where
  pub load : String → Params → Exec (Loading W) (Unit {0})
  pub store : String → Params → Input → Exec (Session W) (Unit {0})
  pub delete : String → Params → Exec (Session W) (Unit {0})
  pub ping : String → ℕ → Exec (Session W) (Unit {0})
  pub stops_at : String → Params → Input → Session W → ℕ

-- An action on a stream and the session, of which the session is kept.
abbrev pub on_stream : {S A : Type 0} → Input → Exec (Input × S) A → Exec S A
on_stream data_in m s = ((m (data_in, s)).0, (m (data_in, s)).1.1)

-- An action on the session, beside a stream that it leaves alone.
abbrev pub beside : {W A : Type 0} → Exec (Session W) A → Exec (Loading W) A
beside m (out, s) = ((m s).0, (out, (m s).1))

-- `o_rData << bytes`
abbrev pub emit : {W : Type 0} → Bytes → Exec (Loading W) (Unit {0})
emit bytes (out, s) = (ok tt, (out ++ bytes, s))

-- A forward that may be missing, put into a std::set of names.
abbrev pub insert_forward : Option String → List String → List String
insert_forward none forwards = forwards
insert_forward (some n) forwards = insert n forwards

-- What is done on a route that may be missing.
abbrev pub on_route : {S A : Type 0} → Exec S A → (String → Exec S A) → Option String → Exec S A
on_route otherwise forward none = otherwise
on_route otherwise forward (some n) = forward n
