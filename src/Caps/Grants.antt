-- ===== src/Caps/Grants.antt =====
-- relay.rs, `apply_boot_caps`: the builder gets exactly the capabilities that the options grant.
use Prim.Native.String.{String}
use flutter_experiments.Common.{
  ◌≡◌, refl, sym, ap, ◌∙◌, inl, inr, Bytes, Bool, true, false, Option, List, [], ◌∷◌, ◌++◌, ◌||◌,
  not, ℤ, pos, ◌==◌, int_eq, int_beq_iff, arith, Bool-cases,
}
use flutter_experiments.Error.{ok, bind-ok}
use flutter_experiments.Json.{JsonLib}
use flutter_experiments.Caps.Blobs.{HostRegistry}
use flutter_experiments.Caps.{
  HostNet, HostCaps, has_bytes, real_net, apply_net, apply_switch, apply_boot_caps,
}
use flutter_experiments.Caps.Real.{IsRealNet, real_net-IsRealNet}

-- A capability of a new machine, with the relay as the other end of all but `real`.
pub data Grant (N : Type 0) : Type 0 where
  relay_net : Grant N
  real : N → Grant N
  relay_calls : Bool → Grant N
  relay_persist : Grant N

module _ {N B : Type 0} (caps : HostCaps N B) where
  abbrev pub attach : Grant N → B → B
  attach relay_net b = caps.with_relay_net b
  attach (real n) b = caps.with_real_net n b
  attach (relay_calls only) b = caps.with_relay_host_call only b
  attach relay_persist b = caps.with_relay_persist b

  abbrev pub attach_all : List (Grant N) → B → B
  attach_all [] b = b
  attach_all (g ∷ grants) b = attach_all grants (attach g b)

  attach_all-append :
      (xs ys : List (Grant N)) (b : B) → attach_all (xs ++ ys) b ≡ attach_all ys (attach_all xs b)
  attach_all-append [] ys b = refl
  attach_all-append (g ∷ xs) ys b = attach_all-append xs ys (attach g b)

-- The capability of a setting that is 0 or 1.
pub data SwitchGrants {N : Type 0} (g : Grant N) (setting : ℤ) (grants : List (Grant N))
    : Type 0 where
  off : setting ≡ pos 0 → grants ≡ [] → SwitchGrants g setting grants
  on : setting ≡ pos 1 → grants ≡ g ∷ [] → SwitchGrants g setting grants

switch_grants :
    {N B : Type 0} (caps : HostCaps N B) (what : String) (g : Grant N) (setting : ℤ)
    (builder done : B)
    → apply_switch what (attach caps g) setting builder ≡ ok done
    → (grants : List (Grant N)) × SwitchGrants g setting grants
      × (done ≡ attach_all caps grants builder)
unfolding apply_switch
switch_grants caps what g setting builder done good = elim (Bool-cases (setting == pos 1)) [
  | inl is_on ↦
      let e : ok (attach caps g builder) ≡ ok done = rw (is_on) at good in
      (g ∷ [], on ((int_beq_iff setting (pos 1)).0 is_on) refl, cc)
  | inr not_on ↦ elim (Bool-cases (setting == pos 0)) [
    | inl is_off ↦
        let e : ok builder ≡ ok done = rw (not_on, is_off) at good in
        ([], off ((int_beq_iff setting (pos 0)).0 is_off) refl, cc)
    | inr other ↦ let stuck = rw (not_on, other) at good in cc
  ]
]

-- Neither credentials nor policies nor approval, which only the real network has.
abbrev pub Bare : Option Bytes → Option Bytes → ℤ → Type 0
Bare connections policies tool_approval =
    (has_bytes connections ≡ false) × (has_bytes policies ≡ false) × (tool_approval ≡ pos 0)

Bare-tested :
    (connections policies : Option Bytes) (tool_approval : ℤ)
    → (has_bytes connections || has_bytes policies) ≡ false
    → not (tool_approval == pos 0) ≡ false
    → Bare connections policies tool_approval
Bare-tested connections policies tool_approval texts approval =
    (ground arith, ground arith, ground (arith, int_beq_iff tool_approval (pos 0)))

module _ {J R N B : Type 0} (json : JsonLib J) (reg : HostRegistry R) (nets : HostNet R N)
    (caps : HostCaps N B) where
  -- The network of a setting.
  pub data NetGrants (net tool_approval : ℤ) (connections policies : Option Bytes)
      (grants : List (Grant N)) : Type 0 where
    denied :
        net ≡ pos 0
        → Bare connections policies tool_approval
        → grants ≡ []
        → NetGrants net tool_approval connections policies grants
    relayed :
        net ≡ pos 1
        → Bare connections policies tool_approval
        → grants ≡ relay_net ∷ []
        → NetGrants net tool_approval connections policies grants
    direct :
        (n : N)
        → net ≡ pos 2
        → IsRealNet json reg nets caps tool_approval connections policies n
        → grants ≡ real n ∷ []
        → NetGrants net tool_approval connections policies grants

  -- What an accepted network setting comes to.
  abbrev NetOutcome : ℤ → ℤ → Option Bytes → Option Bytes → B → B → Type 0
  NetOutcome net tool_approval connections policies builder done =
      (grants : List (Grant N)) × NetGrants net tool_approval connections policies grants
      × (done ≡ attach_all caps grants builder)

  net_denied :
      (net tool_approval : ℤ) (connections policies : Option Bytes) (builder done : B)
      → (net == pos 0) ≡ true
      → apply_net json reg nets caps net tool_approval connections policies builder ≡ ok done
      → NetOutcome net tool_approval connections policies builder done
  unfolding apply_net
  net_denied net tool_approval connections policies builder done is0 good =
      elim (Bool-cases
        (has_bytes connections || (has_bytes policies || not (tool_approval == pos 0)))) [
          | inl refused ↦ let stuck = rw (is0, refused) at good in cc
          | inr bare ↦
              let e = rw (is0, bare) at good in
              (
                [],
                denied ((int_beq_iff net (pos 0)).0 is0)
                    (Bare-tested connections policies tool_approval (ground arith) (ground arith))
                    refl,
                cc,
              )
        ]

  net_relayed :
      (net tool_approval : ℤ) (connections policies : Option Bytes) (builder done : B)
      → (net == pos 0) ≡ false
      → (net == pos 1) ≡ true
      → apply_net json reg nets caps net tool_approval connections policies builder ≡ ok done
      → NetOutcome net tool_approval connections policies builder done
  unfolding apply_net
  net_relayed net tool_approval connections policies builder done not0 is1 good =
      elim (Bool-cases (has_bytes connections || has_bytes policies)) [
        | inl refused ↦ let stuck = rw (not0, is1, refused) at good in cc
        | inr texts ↦ elim (Bool-cases (not (tool_approval == pos 0))) [
          | inl refused ↦ let stuck = rw (not0, is1, texts, refused) at good in cc
          | inr approval ↦
              let e = rw (not0, is1, texts, approval) at good in
              (
                relay_net ∷ [],
                relayed ((int_beq_iff net (pos 1)).0 is1)
                    (Bare-tested connections policies tool_approval texts approval) refl,
                cc,
              )
        ]
      ]

  net_direct :
      (net tool_approval : ℤ) (connections policies : Option Bytes) (builder done : B)
      → (net == pos 0) ≡ false
      → (net == pos 1) ≡ false
      → apply_net json reg nets caps net tool_approval connections policies builder ≡ ok done
      → NetOutcome net tool_approval connections policies builder done
  unfolding apply_net
  net_direct net tool_approval connections policies builder done not0 not1 good =
      elim (Bool-cases (net == pos 2)) [
        | inl is2 ↦
            let (n, made, e) =
              bind-ok (real_net json reg nets caps tool_approval connections policies)
                (λ n. ok (caps.with_real_net n builder)) done (rw (not0, not1, is2) at good) in
            (
              real n ∷ [],
              direct n ((int_beq_iff net (pos 2)).0 is2)
                  (real_net-IsRealNet json reg nets caps tool_approval connections policies n made)
                  refl,
              cc,
            )
        | inr other ↦ let stuck = rw (not0, not1, other) at good in cc
      ]

  apply_net-grants :
      (net tool_approval : ℤ) (connections policies : Option Bytes) (builder done : B)
      → apply_net json reg nets caps net tool_approval connections policies builder ≡ ok done
      → NetOutcome net tool_approval connections policies builder done
  apply_net-grants net tool_approval connections policies builder done good =
      elim (Bool-cases (net == pos 0)) [
        | inl is0 ↦ net_denied net tool_approval connections policies builder done is0 good
        | inr not0 ↦ elim (Bool-cases (net == pos 1)) [
          | inl is1 ↦ net_relayed net tool_approval connections policies builder done not0 is1 good
          | inr not1 ↦ net_direct net tool_approval connections policies builder done not0 not1 good
        ]
      ]

  -- If the boot capabilities are accepted, the builder has got exactly the capabilities of the
  -- settings, one after another: no network for 0, the relay for 1, both only without credentials,
  -- policies and approval, or for 2 the real network with the parsed connections and policies, and with
  -- the approver exactly if approval is not 0; host calls and storage
  -- over the relay for 1 and nothing for 0. No other setting is accepted.
  pub apply_boot_caps-grants :
      (net host_call persist tool_approval : ℤ) (sidecar_only : Bool)
      (connections policies : Option Bytes) (builder done : B)
      → apply_boot_caps json reg nets caps net host_call sidecar_only persist tool_approval
          connections policies builder
        ≡ ok done
      → (nets_given calls_given persist_given : List (Grant N)) × NetGrants net tool_approval
          connections policies nets_given
        × SwitchGrants (relay_calls sidecar_only) host_call calls_given
        × SwitchGrants relay_persist persist persist_given
        × (done ≡ attach_all caps (nets_given ++ (calls_given ++ persist_given)) builder)
  unfolding apply_boot_caps
  apply_boot_caps-grants net host_call persist tool_approval sidecar_only connections policies
        builder done good =
      let (b1, net_ok, rest) =
        bind-ok (apply_net json reg nets caps net tool_approval connections policies builder) _ done
          good in
      let (b2, calls_ok, persist_ok) =
        bind-ok
          (apply_switch "host_call capability" (caps.with_relay_host_call sidecar_only) host_call
            b1)
          _ done rest in
      let (g1, n1, e1) =
        apply_net-grants net tool_approval connections policies builder b1 net_ok in
      let (g2, n2, e2) = switch_grants caps _ (relay_calls sidecar_only) host_call b1 b2 calls_ok in
      let (g3, n3, e3) = switch_grants caps _ relay_persist persist b2 done persist_ok in
      (
        g1,
        g2,
        g3,
        n1,
        n2,
        n3,
        e3
            ∙ (ap (attach_all caps g3) (e2 ∙ ap (attach_all caps g2) e1)
                ∙ (sym (attach_all-append caps g2 g3 (attach_all caps g1 builder))
                    ∙ sym (attach_all-append caps g1 (g2 ++ g3) builder))),
      )
