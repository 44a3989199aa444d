-- ===== src/Operation/Network.antt =====
-- network.go: the audits of the nodes' network paths. The audit helper is a script that the run
-- reads from a file.
-- addressPattern: ^[0-9A-Fa-f:.]+$
use Prim.Native.Nat.{ℕ}
use Prim.Native.String.{String}
use mathlib.Core.Bool.{Bool, false, not, ◌&&◌, ◌||◌}
use mathlib.Core.List.{List, [], map, ◌∷◌}
use text.Mathlib.Text.{◌==◌}
use nix_packages.Base.{all, codes, eqb, if◌then◌else◌, is_digit, is_empty, keep, leb, text_at, ◌<>◌}
use nix_packages.Kube.{Node, internal_ips}
use nix_packages.Operation.Machine.{
  Gate, flannel_mismatch, flannel_missing, gets, kept_cordon, network_audit, no_audit_helper,
  no_internal_ip, pure, refuse_if, refused, survivor_unready, unsafe_address, unsafe_name, ◌>>=◌,
  ◌>>◌,
}
use nix_packages.Operation.World.{
  Probe, World, ask, audit, deadline_after, duration_of, flannel_link, probe, wait_until_empty,
}
use nix_packages.Options.{Options}
use nix_packages.Options.Durations.{safe_name}
use nix_packages.Placement.Spread.{is_none}

unfoldable pub is_address_code : ℕ → Bool
is_address_code c =
    is_digit c
    || (leb b'A' c && leb c b'F')
    || (leb b'a' c && leb c b'f')
    || eqb c b':'
    || eqb c b'.'

unfoldable pub is_address : String → Bool
is_address text = not (is_empty (codes text)) && all is_address_code (codes text)

-- The node's one InternalIP, empty where it has none or several.
unfoldable pub single_address : List String → String
single_address (a ∷ []) = a
single_address [] = ""
single_address (a ∷ b ∷ rest) = ""

-- strings.Join(…, " ")
unfoldable pub join_spaced : List String → String
join_spaced [] = ""
join_spaced (a ∷ []) = a
join_spaced (a ∷ b ∷ rest) = (a <> " ") <> join_spaced (b ∷ rest)

-- The statuses of the Ready conditions.
unfoldable pub ready_statuses : Node → List String
ready_statuses n = map (λ c. c.status) (keep (λ c. c.type == "Ready") n.status.conditions)

unfoldable pub is_only : String → List String → Bool
is_only s (a ∷ []) = a == s
is_only s [] = false
is_only s (a ∷ b ∷ rest) = false

module _ (w : World) (o : Options) where
  unfoldable pub verify_network_path_on_node : String → String → String → Gate (Unit {0})
  verify_network_path_on_node audit_node expected_ip ssh_target = do
    _ ← refuse_if (expected_ip == "") no_internal_ip
    _ ← refuse_if (not (safe_name audit_node)) unsafe_name
    _ ← refuse_if (not (is_address expected_ip)) unsafe_address
    _ ← refuse_if (o.network_audit_script == "") no_audit_helper
    script ← gets (λ n. (w.reads n.moment).audit_script)
    _ ← refuse_if (is_none script) no_audit_helper
    status ← probe w (audit audit_node expected_ip ssh_target)
    refuse_if (not (eqb status 0)) network_audit

  -- The loop over the nodes.
  unfoldable pub verify_nodes : String → List Node → Gate (Unit {0})
  verify_nodes excluded [] = pure tt
  verify_nodes excluded (n ∷ ns) =
      let name = n.metadata.name in
      let ssh_target =
        if name == o.node then o.ssh_target else ((o.node_ssh_user <> "@") <> name) in
      let rest = verify_nodes excluded ns in
      if name == "" || name == excluded
      then rest
      else (refuse_if (not (is_only "True" (ready_statuses n))) survivor_unready
          >> verify_network_path_on_node name (single_address (internal_ips n)) ssh_target
          >> rest)

  unfoldable pub verify_all_node_network_paths : String → Gate (Unit {0})
  verify_all_node_network_paths excluded =
      ask w (λ r. r.cluster.get_nodes) >>= verify_nodes excluded

  unfoldable pub verify_survivor_node_network_paths : Gate (Unit {0})
  verify_survivor_node_network_paths = verify_all_node_network_paths o.node

  unfoldable pub verify_returned_node_network : Gate (Unit {0})
  verify_returned_node_network = do
    n ← ask w (λ r. r.node)
    let internal_ip = join_spaced (internal_ips n)
    _ ← refuse_if (internal_ip == "") no_internal_ip
    _ ←
        refuse_if
          (not (text_at "flannel.alpha.coreos.com/public-ip" n.metadata.annotations == internal_ip))
          flannel_mismatch
    verify_all_node_network_paths ""

  -- The check of the wait: the probe's status.
  unfoldable pub probe_fails : Probe → Gate (List ℕ)
  probe_fails p = probe w p >>= λ status. pure (if eqb status 0 then [] else status ∷ [])

  unfoldable pub wait_for_returned_node_network : Gate (Unit {0})
  wait_for_returned_node_network = do
    deadline ← deadline_after w (duration_of o.ready_timeout)
    _ ←
        wait_until_empty w (kept_cordon (refused flannel_missing)) deadline
          (probe_fails flannel_link)
    verify_returned_node_network
