-- ===== src/Client/Invariant.antt =====
-- When the transaction state of a client is consistent, and that a request's result keeps it so.
pub mod Calls
use data_proxy_library.Common.{
  ℕ, zero, suc, String, ◌≡◌, ◌≢◌, ◌⊎◌, refl, Bool, true, false, ◌&&◌, not, Option, none, some, inl,
  inr, List, [], ◌∷◌, ◌++◌, arith, All, contains, is_empty, IsDistinct, append-IsDistinct,
  contains-append, eq_iff, eq_refl, ◌==◌, Bool-cases, Option-cases, if◌then◌else◌,
}
use data_proxy_library.Common.Dict.{Dict, find}
use data_proxy_library.Common.Exec.{
  Error, Result, ok, err, diverged, Exec, raise, pure, ◌>>=◌, ◌>>◌, uninitialized, unknown_node,
  partial_commit, continue, Result-cases,
}
use data_proxy_library.Common.Exec.Rules.{Keeps, Keeps-pure, Keeps-raise, Keeps-bind, if-lands}
use data_proxy_library.Request.{Params, Input, Session, Forwarder, beside}
use data_proxy_library.Node.Keeps.{Beside, beside-Keeps, ForwarderKeeps}
use data_proxy_library.Nodes.{Node, Kind, supports_transactions, commit_node, rollback_node}
use data_proxy_library.Nodes.Keeps.{node_load-Keeps, node_store-Keeps, node_delete-Keeps}
use data_proxy_library.Client.Transaction.{
  Environment, add_if_absent, handle_outside, handle_inside, handle_result, settle, settle_commits,
  settle_rollbacks, end_transaction, commit, rollback, begin_transaction, start_transaction,
}
use data_proxy_library.Client.Requests.{
  find_node, load_request, store_request, delete_request, forwarder,
}
use data_proxy_library.Client.Settle.{IsTransactional, settle-left, settle-done}

-- Pending nodes are known, support transactions and are listed once, for commit or for rollback
-- but not both; outside a transaction nothing is pending.
pub record IsConsistent {W : Type 0} (nodes : Dict (Node W)) (s : Session W) : Type 0 where
  pub commits_distinct : IsDistinct s.pending_commits
  pub rollbacks_distinct : IsDistinct s.pending_rollbacks
  pub apart :
      (x : String) → contains x s.pending_commits ≡ true → contains x s.pending_rollbacks ≡ false
  pub commits_known : All (IsTransactional nodes) s.pending_commits
  pub rollbacks_known : All (IsTransactional nodes) s.pending_rollbacks
  pub auto_distinct : IsDistinct s.auto_committed
  pub idle :
      s.inside ≡ false
      → (s.pending_commits ≡ []) × (s.pending_rollbacks ≡ []) × (s.auto_committed ≡ [])

add_if_absent-IsDistinct :
    (x : String) (xs : List String) → IsDistinct xs → IsDistinct (add_if_absent x xs)
unfolding add_if_absent
add_if_absent-IsDistinct x xs d = elim (Bool-cases (contains x xs)) [
  | inl c ↦ rw c d
  | inr c ↦ rw c (append-IsDistinct x xs d c)
]

contains-add_if_absent :
    (x y : String) (xs : List String)
    → contains x (add_if_absent y xs) ≡ true
    → (y ≡ x) ⊎ (contains x xs ≡ true)
unfolding add_if_absent
contains-add_if_absent x y xs h = ground (arith, contains-append x xs (y ∷ []), eq_iff y x)

All-append {ℓ} :
    {A : Type 0} (P : A → Type ℓ) (xs : List A) (x : A) → All P xs → P x → All P (xs ++ x ∷ [])
All-append P [] x h k = (k, tt)
All-append P (y ∷ ys) x h k = (h.0, All-append P ys x h.1 k)

All-add_if_absent :
    (P : String → Type 0) (x : String) (xs : List String)
    → All P xs
    → P x
    → All P (add_if_absent x xs)
unfolding add_if_absent
All-add_if_absent P x xs h k = elim (Bool-cases (contains x xs)) [
  | inl c ↦ rw c h
  | inr c ↦ rw c (All-append P xs x h k)
]

module _ {W : Type 0} (nodes : Dict (Node W)) where
  abbrev pub Consistent : Session W → Type 0
  Consistent = IsConsistent nodes

  pub any_world : (s : Session W) (w : W) → Consistent s → Consistent (record s { world = w })
  any_world s w v = record {
    commits_distinct = v.commits_distinct;
    rollbacks_distinct = v.rollbacks_distinct;
    apart = v.apart;
    commits_known = v.commits_known;
    rollbacks_known = v.rollbacks_known;
    auto_distinct = v.auto_distinct;
    idle = v.idle;
  }

  add_commit :
      (name : String) (s : Session W)
      → s.inside ≡ true
      → IsTransactional nodes name
      → contains name s.pending_rollbacks ≡ false
      → Consistent s
      → Consistent (record s { pending_commits = add_if_absent name s.pending_commits })
  add_commit name s i k c v = record {
    commits_distinct = add_if_absent-IsDistinct name s.pending_commits v.commits_distinct;
    rollbacks_distinct = v.rollbacks_distinct;
    apart = λ x h. ground (arith, contains-add_if_absent x name s.pending_commits h, v.apart x);
    commits_known =
        All-add_if_absent (IsTransactional nodes) name s.pending_commits v.commits_known k;
    rollbacks_known = v.rollbacks_known;
    auto_distinct = v.auto_distinct;
    idle = λ o. absurd (cc);
  }

  add_rollback :
      (name : String) (s : Session W)
      → s.inside ≡ true
      → IsTransactional nodes name
      → contains name s.pending_commits ≡ false
      → Consistent s
      → Consistent (record s { pending_rollbacks = add_if_absent name s.pending_rollbacks })
  add_rollback name s i k c v = record {
    commits_distinct = v.commits_distinct;
    rollbacks_distinct = add_if_absent-IsDistinct name s.pending_rollbacks v.rollbacks_distinct;
    apart = λ x h. ground (arith, contains-add_if_absent x name s.pending_rollbacks, v.apart x h);
    commits_known = v.commits_known;
    rollbacks_known =
        All-add_if_absent (IsTransactional nodes) name s.pending_rollbacks v.rollbacks_known k;
    auto_distinct = v.auto_distinct;
    idle = λ o. absurd (cc);
  }

  add_auto :
      (name : String) (s : Session W)
      → s.inside ≡ true
      → Consistent s
      → Consistent (record s { auto_committed = add_if_absent name s.auto_committed })
  add_auto name s i v = record {
    commits_distinct = v.commits_distinct;
    rollbacks_distinct = v.rollbacks_distinct;
    apart = v.apart;
    commits_known = v.commits_known;
    rollbacks_known = v.rollbacks_known;
    auto_distinct = add_if_absent-IsDistinct name s.auto_committed v.auto_distinct;
    idle = λ o. absurd (cc);
  }

  handle_outside-Consistent :
      (kind : Kind W) (t success : Bool) → Keeps Consistent (handle_outside kind t success)
  unfolding handle_outside
  handle_outside-Consistent kind true true = record { at = λ s v. any_world s _ v }
  handle_outside-Consistent kind true false = record { at = λ s v. any_world s _ v }
  handle_outside-Consistent kind false success = record { at = λ s v. v }

  handle_inside-Consistent :
      (name : String) (t success : Bool) (s : Session W)
      → s.inside ≡ true
      → (t ≡ true → IsTransactional nodes name)
      → Consistent s
      → Consistent (handle_inside name t success s).1
  unfolding handle_inside
  handle_inside-Consistent name true true s i k v =
      if-lands Consistent (contains name s.pending_rollbacks) _ _ (λ c. v)
        (λ c. add_commit name s i (k refl) c v)
  handle_inside-Consistent name true false s i k v =
      if-lands Consistent (contains name s.pending_commits) _ _ (λ c. v)
        (λ c. add_rollback name s i (k refl) c v)
  handle_inside-Consistent name false success s i k v = add_auto name s i v

  pub handle_result-Consistent :
      (name : String) (node : Node W) (success : Bool)
      → find name nodes ≡ some node
      → Keeps Consistent (handle_result name node.kind success)
  unfolding handle_result
  handle_result-Consistent name node success at_name = record {
    at = λ s v.
        if-lands Consistent (not s.inside) _ _
          (λ o.
            (handle_outside-Consistent node.kind (supports_transactions node.kind) success).at s v)
          (λ o.
            handle_inside-Consistent name (supports_transactions node.kind) success s (ground arith)
              (λ t. (node, at_name, t)) v);
  }
