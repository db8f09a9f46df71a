-- ===== src/Api/Groups.antt =====
-- internal/uptimerobot/client.go: the calls for monitor groups.
use uptime_robot_operator.Prelude.{String, Option, List, [], ◌∷◌}
use uptime_robot_operator.Text.{concat}
use uptime_robot_operator.Failure.{Failure, Result, ok}
use uptime_robot_operator.Api.Wire.{GroupCreationWireFormat, GroupUpdateWireFormat, GroupWireFormat}
use uptime_robot_operator.Api.Transport.{
  Transport, no_body, create_group_body, update_group_body, then_do, do_json,
}
use uptime_robot_operator.Api.Codec.{Codec, delete_at}

abbrev pub group_endpoint : String → String
group_endpoint id = concat ("monitor-groups/" ∷ id ∷ [])

module _ {W : Type 0} (t : Transport W) (codec : Codec) where
  -- SpawnGroupInBackend
  unfoldable pub spawn_group_in_backend : GroupCreationWireFormat → W → Result GroupWireFormat × W
  spawn_group_in_backend payload =
      do_json t "POST" "monitor-groups" (create_group_body payload) codec.group

  -- FetchGroupFromBackend
  unfoldable pub fetch_group_from_backend : String → W → Result GroupWireFormat × W
  fetch_group_from_backend id = do_json t "GET" (group_endpoint id) no_body codec.group

  -- MutateGroupInBackend
  unfoldable pub mutate_group_in_backend :
      String → GroupUpdateWireFormat → W → Result GroupWireFormat × W
  mutate_group_in_backend id payload =
      do_json t "PATCH" (group_endpoint id) (update_group_body payload) codec.group

  -- EnumerateGroupsFromBackend: the first page
  unfoldable pub enumerate_groups_from_backend : W → Result (List GroupWireFormat) × W
  enumerate_groups_from_backend w =
      then_do (do_json t "GET" "monitor-groups" no_body codec.groups w)
        (λ page v. (ok page.groups, v))

-- PurgeGroupFromBackend
unfoldable pub purge_group_from_backend :
    {W : Type 0} → Transport W → String → W → Option Failure × W
purge_group_from_backend t id = delete_at t (group_endpoint id)
