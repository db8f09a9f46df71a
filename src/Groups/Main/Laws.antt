-- ===== src/Groups/Main/Laws.antt =====
-- The deletion of a monitor group whose account is gone (internal/controller/monitorgroup_controller.go).
use mathlib.Core.Path.{fun_ext}
use uptime_robot_operator.Prelude.{
  ◌≡◌, refl, sym, ◌∙◌, when_true, true, false, ◌⊎◌, inl, inr, none, arith,
}
use uptime_robot_operator.Text.{is_blank}
use uptime_robot_operator.Failure.{ok}
use uptime_robot_operator.Reconcile.Session.{Accounts}
use uptime_robot_operator.Reconcile.Deletion.{finalizer_name}
use uptime_robot_operator.Controller.Session.{onward, exit, proceed}
use uptime_robot_operator.Controller.Status.{write_status, write_object, try_write}
use uptime_robot_operator.Controller.Deletion.{
  track_object, load_object, clean_up_object, finalize_object, delete_object, retry_unless_done,
}
use uptime_robot_operator.Controller.Deletion.Laws.{delete_object_cong}
use uptime_robot_operator.Groups.Resource.{MonitorGroup, GroupCluster, GroupSession}
use uptime_robot_operator.Groups.Main.{cleanup_group, group_deleted_or_live}

-- nothing in UptimeRobot is to be deleted with the group
abbrev pub IsLeft : MonitorGroup → Type 0
IsLeft o = (o.spec.prune ≡ false) ⊎ (is_blank o.status.id ≡ true)

left_alone :
    {W : Type 0} (k : GroupCluster W) (o : MonitorGroup) (w : W)
    → IsLeft o
    → cleanup_group k o w ≡ (none, w)
unfolding cleanup_group
left_alone k o w (inl e) = rw e refl
left_alone k o w (inr e) = ground arith

module _ {W : Type 0} (k : GroupCluster W) where
  same_deletion :
      (a : Accounts W) (s : GroupSession W)
      → delete_object
          (record k { accounts = a })
          finalizer_name
          (write_status (record k { accounts = a }))
          (cleanup_group k)
          s
        ≡ delete_object k finalizer_name (write_status k) (cleanup_group k) s
  unfolding delete_object finalize_object track_object load_object clean_up_object retry_unless_done
      try_write write_object write_status onward exit proceed
  same_deletion a s = refl

  module _ (a : Accounts W) where
    -- the same cluster with other accounts and secrets
    abbrev pub other_accounts : GroupCluster W
    other_accounts = record k { accounts = a }

    -- The deletion of a group that leaves nothing to delete in UptimeRobot does not depend on accounts and
    -- secrets: where every version of the group that may be read is not pruned or has no id, the deletion
    -- comes to the same in a cluster that has others, or none.
    pub group_deletion_without_account :
        (s : GroupSession W)
        → s.object.is_deleting ≡ true
        → ((o : MonitorGroup) (v w : W) → k.get v ≡ (ok o, w) → IsLeft o)
        → group_deleted_or_live other_accounts s ≡ group_deleted_or_live k s
    unfolding group_deleted_or_live
    group_deletion_without_account s d h =
        when_true _ _ _ d
        ∙ delete_object_cong other_accounts finalizer_name (write_status other_accounts)
            (cleanup_group other_accounts) (cleanup_group k) s
            (λ o v w e. fun_ext (same_cleanup o v w e))
        ∙ same_deletion a s
        ∙ sym (when_true _ _ _ d)
      where
        same_cleanup :
            (o : MonitorGroup) (v w : W)
            → k.get v ≡ (ok o, w)
            → (x : W) → cleanup_group other_accounts o x ≡ cleanup_group k o x
        same_cleanup o v w e x =
            left_alone other_accounts o x (h o v w e) ∙ sym (left_alone k o x (h o v w e))
