-- ===== src/Node/Retry.antt =====
-- The rounds of AbstractNode's retry loops: how many there are, and what they come to.
use data_proxy_library.Common.{
  subst, ℕ, zero, suc, ◌+◌, ◌^◌, ◌<◌, ◌≡◌, refl, ◌∙◌, String, true, false, Option, none, some,
  arith, Option-cases, inl, inr, ◌==◌, if◌then◌else◌,
}
use data_proxy_library.Common.Exec.{Error, ok, err, Exec, pure, catch, ◌>>◌}
use data_proxy_library.Request.{Params, Session, Forwarder}
use data_proxy_library.Node.Config.{
  NodeConfig, OpConfig, no_translation, is_ignore, forwarded_parameters, choose_parameters,
  add_name_if_necessary, prepare,
}
use data_proxy_library.Node.Attempts.{rounds, attempts}
use data_proxy_library.Common.Dict.{find, find-put}
use data_proxy_library.Node.Delete.{delete, recover_delete}

-- A retry count below the largest one of 32 bits gives one round more than the count.
pub rounds_lem : (n : ℕ) → n + 1 < 2 ^ 32 → rounds n ≡ suc n
unfolding rounds
rounds_lem n h = ground arith

module _ {S : Type 0} (m : Exec S (Unit {0})) where
  -- The state after some rounds, whatever comes of them.
  unfoldable pub after : ℕ → S → S
  after zero s = s
  after (suc k) s = after k (m s).1

  -- Each of the first rounds throws.
  unfoldable pub FailFirst : ℕ → S → Type 0
  FailFirst zero s = Unit {0}
  FailFirst (suc k) s = ((e : Error) × ((m s).0 ≡ err e)) × FailFirst k (m s).1

  -- The loop ends with the first round that succeeds.
  pub attempts-succeeds :
      (failures more : ℕ) (s : S)
      → FailFirst failures s
      → (m (after failures s)).0 ≡ ok tt
      → attempts (suc (failures + more)) m s ≡ (ok true, (m (after failures s)).1)
  unfolding attempts after FailFirst
  attempts-succeeds zero more s f h = ground arith
  attempts-succeeds (suc k) more s ((e, p), f) h =
      ground (arith, attempts-succeeds k more (m s).1 f h)

  pub attempts-retries :
      (n failures more : ℕ) (s : S)
      → failures + more ≡ n
      → FailFirst failures s
      → (m (after failures s)).0 ≡ ok tt
      → attempts (suc n) m s ≡ (ok true, (m (after failures s)).1)
  attempts-retries n failures more s sum f h =
      subst (λ k. attempts (suc k) m s ≡ (ok true, (m (after failures s)).1)) sum
        (attempts-succeeds failures more s f h)

  -- Without one, the last round's exception leaves the loop.
  pub attempts-fails :
      (failures : ℕ) (s : S) (e : Error)
      → FailFirst failures s
      → (m (after failures s)).0 ≡ err e
      → attempts (suc failures) m s ≡ (err e, (m (after failures s)).1)
  unfolding attempts after FailFirst
  attempts-fails zero s e f h = ground arith
  attempts-fails (suc k) s e ((e', p), f) h = ground (arith, attempts-fails k (m s).1 e f h)

-- What a forwarded request has under a name, by the configuration: the failed node's name under the
-- one that it is to be included as, and of the others what the translated or the original
-- parameters have.
abbrev pub asked_for : {W : Type 0} → String → OpConfig W → Params → Params → String → Option String
asked_for name config params translated key =
    let passed_on =
      if config.use_translated_parameters then find key translated else find key params in
    elim config.include_node_name_as_parameter [
      | none ↦ passed_on
      | some included ↦ if included == key then some name else passed_on
    ]

find-forwarded_parameters :
    {W : Type 0} (node : NodeConfig W) (config : OpConfig W) (params translated : Params)
    (key : String)
    → find key (forwarded_parameters node config params translated)
      ≡ asked_for node.name config params translated key
unfolding forwarded_parameters choose_parameters add_name_if_necessary
find-forwarded_parameters node config params translated key =
    elim (Option-cases config.include_node_name_as_parameter) [
      | inl e ↦ rw e (ground arith)
      | inr (included, e) ↦ rw (e, find-put included key node.name) (ground arith)
    ]

module _ {W : Type 0} (fw : Forwarder W) (node : NodeConfig W)
    (delete_impl : Params → Exec (Session W) (Unit {0})) (params use_params : Params)
    (s : Session W) (processed : is_ignore node.delete.operation ≡ false)
    (counted : node.delete.retry_count + 1 < 2 ^ 32)
    (prepared : (prepare node.delete params (no_translation, s)).0 ≡ ok use_params) where
  abbrev started : Session W
  started = (prepare node.delete params (no_translation, s)).1.1

  delete_lem :
      delete fw node delete_impl params s
      ≡ catch
          (attempts (suc node.delete.retry_count) (delete_impl use_params))
          (recover_delete fw node params
            (prepare node.delete params (no_translation, s)).1.0.output)
          started
  unfolding delete
  delete_lem =
      rw (processed, delete)
        (rw (prepared, delete) (rw (rounds_lem node.delete.retry_count counted) refl))

  -- A delete that is prepared, with a retry count below the largest one of 32 bits: if one of its
  -- first retryCount + 1 rounds returns and those before it throw, the delete succeeds with that
  -- round, and nothing is forwarded.
  pub delete-retries :
      (failures more : ℕ)
      → failures + more ≡ node.delete.retry_count
      → FailFirst (delete_impl use_params) failures started
      → (delete_impl use_params (after (delete_impl use_params) failures started)).0 ≡ ok tt
      → delete fw node delete_impl params s
        ≡ (ok true, (delete_impl use_params (after (delete_impl use_params) failures started)).1)
  unfolding delete
  delete-retries failures more sum f h =
      delete_lem
      ∙ rw
          (attempts-retries (delete_impl use_params) node.delete.retry_count failures more started
            sum f h)
          refl

  -- A delete that is prepared, with a retry count below the largest one of 32 bits: where all
  -- retryCount + 1 rounds throw and the node has nowhere to forward to, the last round's
  -- exception is the answer.
  pub delete-gives_up :
      (e : Error)
      → node.delete.forward_node_name ≡ none
      → FailFirst (delete_impl use_params) node.delete.retry_count started
      → (delete_impl use_params (after (delete_impl use_params) node.delete.retry_count started)).0
        ≡ err e
      → delete fw node delete_impl params s ≡ (
        err e,
        (delete_impl use_params (after (delete_impl use_params) node.delete.retry_count started)).1,
      )
  unfolding delete recover_delete
  delete-gives_up e nowhere f h =
      delete_lem
      ∙ rw (attempts-fails (delete_impl use_params) node.delete.retry_count started e f h)
          (rw nowhere refl)

  -- A delete that is prepared, with a retry count below the largest one of 32 bits: where all
  -- retryCount + 1 rounds throw and the node has a node to forward to, the delete is forwarded
  -- once, after all rounds. What it is forwarded with has the node's own name under the parameter
  -- that the configuration includes it as, if any, and under every other what the translated or
  -- the original parameters have, whichever the configuration asks for. It is no success then
  -- even if that one is.
  pub delete-forwards :
      (e : Error) (n : String)
      → node.delete.forward_node_name ≡ some n
      → FailFirst (delete_impl use_params) node.delete.retry_count started
      → (delete_impl use_params (after (delete_impl use_params) node.delete.retry_count started)).0
        ≡ err e
      → (q : Params) × (delete fw node delete_impl params s
          ≡ (fw.delete n q >> pure false)
              (delete_impl use_params
                (after (delete_impl use_params) node.delete.retry_count started)).1)
        × ((key : String)
            → find key q
              ≡ asked_for node.name node.delete params
                  (prepare node.delete params (no_translation, s)).1.0.output
                  key)
  unfolding delete recover_delete
  delete-forwards e n target f h =
      let translated = (prepare node.delete params (no_translation, s)).1.0.output in
      (
        forwarded_parameters node node.delete params translated,
        delete_lem
            ∙ rw (attempts-fails (delete_impl use_params) node.delete.retry_count started e f h)
                (rw target refl),
        find-forwarded_parameters node node.delete params translated,
      )

-- With the largest retry count of 32 bits, a delete that is prepared makes no round at all: it
-- returns that it has not succeeded, having called nothing and forwarded nothing.
pub delete-overflow :
    {W : Type 0} (fw : Forwarder W) (node : NodeConfig W)
    (delete_impl : Params → Exec (Session W) (Unit {0})) (params use_params : Params)
    (s : Session W)
    → is_ignore node.delete.operation ≡ false
    → node.delete.retry_count + 1 ≡ 2 ^ 32
    → (prepare node.delete params (no_translation, s)).0 ≡ ok use_params
    → delete fw node delete_impl params s
      ≡ (ok false, (prepare node.delete params (no_translation, s)).1.1)
unfolding delete rounds attempts
delete-overflow fw node delete_impl params use_params s processed full prepared =
    rw (processed, delete) (rw (prepared, delete) (rw full refl))
