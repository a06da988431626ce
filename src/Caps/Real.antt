-- ===== src/Caps/Real.antt =====
-- relay.rs, `apply_boot_caps`: the real network.
use flutter_experiments.Common.{
  ◌≡◌, ◌≢◌, ◌⊎◌, inl, inr, Bytes, true, false, Option, List, [], ℤ, pos, ◌==◌, int_eq, int_beq_iff,
  Bool-cases,
}
use flutter_experiments.Error.{ok, bind-ok}
use flutter_experiments.Host.{gave, map_host, unwrap_or}
use flutter_experiments.Host.Calls.{map_host-gave}
use flutter_experiments.Json.{JsonLib}
use flutter_experiments.Caps.Blobs.{
  ConnectionPolicyRule, HostRegistry, parse_connections_blob, parse_policies_blob,
}
use flutter_experiments.Caps.{HostNet, HostCaps, real_net}

module _ {J R N B : Type 0} (json : JsonLib J) (reg : HostRegistry R) (nets : HostNet R N)
    (caps : HostCaps N B) where
  -- The real network: with the connections and the policies of the two blobs, of which one that is
  -- missing counts as empty, and with the approver exactly if approval is set.
  abbrev pub IsRealNet : ℤ → Option Bytes → Option Bytes → N → Type 0
  IsRealNet tool_approval connections policies n =
      (registry : R) × (rules : List ConnectionPolicyRule) × (made : N) × (parse_connections_blob
          json reg (unwrap_or [] connections)
        ≡ ok registry)
      × (parse_policies_blob json (unwrap_or [] policies) ≡ ok rules)
      × (nets.with_connection_policies rules (nets.with_connections registry nets.new_net)
          ≡ gave made)
      × (((tool_approval ≡ pos 0) × (n ≡ made))
          ⊎ ((tool_approval ≢ pos 0) × (n ≡ nets.with_tool_approver made)))

  pub real_net-IsRealNet :
      (tool_approval : ℤ) (connections policies : Option Bytes) (n : N)
      → real_net json reg nets caps tool_approval connections policies ≡ ok n
      → IsRealNet tool_approval connections policies n
  unfolding real_net
  real_net-IsRealNet tool_approval connections policies n good =
      let (registry, c, rest) =
        bind-ok (parse_connections_blob json reg (unwrap_or [] connections)) _ n good in
      let (rules, p, more) = bind-ok (parse_policies_blob json (unwrap_or [] policies)) _ n rest in
      let (made, m, last) =
        bind-ok
          (map_host "invalid connection policies" (λ n. n)
            (nets.with_connection_policies rules (nets.with_connections registry nets.new_net)))
          _ n more in
      (
        registry,
        rules,
        made,
        c,
        p,
        map_host-gave "invalid connection policies" _ made m,
        (elim (Bool-cases (tool_approval == pos 0)) [
          | inl no_approver ↦
              let e : ok made ≡ ok n = rw (no_approver) at last in
              inl ((int_beq_iff tool_approval (pos 0)).0 no_approver, cc)
          | inr approver ↦
              let e : ok (nets.with_tool_approver made) ≡ ok n = rw (approver) at last in
              inr (
                λ zero_set. no_approval approver ((int_beq_iff tool_approval (pos 0)).1 zero_set),
                cc,
              )
        ]),
      )
    where
      no_approval : (tool_approval == pos 0) ≡ false → (tool_approval == pos 0) ≡ true → ⊥
      no_approval a b = cc
