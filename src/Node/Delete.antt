-- ===== src/Node/Delete.antt =====
-- AbstractNode::Delete, around the DeleteImpl that is its argument.
use data_proxy_library.Common.{Bool, true, false, none, some, if◌then◌else◌}
use data_proxy_library.Common.Exec.{Error, ok, Exec, pure, raise, continue, catch, ◌>>◌}
use data_proxy_library.Request.{Params, Session, Forwarder}
use data_proxy_library.Node.Config.{
  NodeConfig, no_translation, is_ignore, forwarded_parameters, prepare,
}
use data_proxy_library.Node.Attempts.{rounds, attempts}

module _ {W : Type 0} where
  unfoldable pub recover_delete :
      Forwarder W → NodeConfig W → Params → Params → Error → Exec (Session W) Bool
  unfolding forwarded_parameters
  recover_delete fw node params translated e = elim node.delete.forward_node_name [
    | none ↦ raise e
    | some n ↦ fw.delete n (forwarded_parameters node node.delete params translated) >> pure false
  ]

  unfoldable pub delete :
      Forwarder W
      → NodeConfig W
      → (Params → Exec (Session W) (Unit {0}))
      → Params
      → Exec (Session W) Bool
  unfolding recover_delete prepare
  delete fw node delete_impl params s =
      if is_ignore node.delete.operation
      then (ok true, s)
      else (let prepared = prepare node.delete params (no_translation, s) in
          catch
            (continue prepared.0
              λ use_params. attempts (rounds node.delete.retry_count) (delete_impl use_params))
            (recover_delete fw node params prepared.1.0.output) prepared.1.1)
