-- ===== src/Notify/Ssrf.antt =====
-- internal/notify/ssrf.go: the dialer that refuses private addresses. The resolver, the dialer of
-- package net, net.ParseIP and the cancellation of the context are parameters.
use cron_mon.Base.{
  ◌≡◌, refl, inl, inr, Bool, false, ◌||◌, Option, none, some, List, [], ◌∷◌, All, All-map, arith,
  if◌then◌else◌, Bool-cases,
}
use mathlib.Core.List.{Mem, mem-cons_of_mem, mem-cons_self}
use cron_mon.Base.Text.{Text, is_empty}
use cron_mon.Net.{split_host_port, join_host_port}
use cron_mon.Notify.Ip.{Ip, is_private_ip}

-- How a call of the dialer ends.
pub data Dialed : Type 0 where
  connected : Text → Dialed
  bad_address unresolved no_addresses resolves_to_private undialed : Dialed

module _ (parse_ip : Text → Option Ip) where
  -- Whether the loop of checks rejects the text: what does not parse is passed over.
  unfoldable pub rejects : Text → Bool
  rejects ip = elim (parse_ip ip) [ none ↦ false | some bytes ↦ is_private_ip bytes ]

  unfoldable pub any_rejected : List Text → Bool
  unfolding rejects
  any_rejected [] = false
  any_rejected (ip ∷ ips) = rejects ip || any_rejected ips

  -- The address was resolved, passed the check, and was joined with the port.
  abbrev pub Vetted : Text → List Text → Text → Type 0
  Vetted port ips addr =
      (ip : Text) × Mem ip ips × (rejects ip ≡ false) × (addr ≡ join_host_port ip port)

  -- `cancelled ips` is ctx.Err() ≠ nil when the addresses `ips` are left; `connects addr` is
  -- whether the operating system's dial of the address succeeds.
  module _ (resolve : Text → Option (List Text)) (cancelled : List Text → Bool)
      (connects : Text → Bool) where
    unfoldable pub after_attempt : Text → Dialed × List Text → Dialed × List Text
    after_attempt addr (r, attempts) =
        if connects addr then (connected addr, addr ∷ []) else (r, addr ∷ attempts)

    -- The loop of dials: how it ends, and the addresses that it dialed.
    unfoldable pub try_each : Text → List Text → Dialed × List Text
    unfolding after_attempt
    try_each port [] = (undialed, [])
    try_each port (ip ∷ ips) =
        let rest = try_each port ips in
        if cancelled (ip ∷ ips) then (undialed, []) else after_attempt (join_host_port ip port) rest

    unfoldable pub dial_resolved : Text → List Text → Dialed × List Text
    dial_resolved port ips =
        if is_empty ips
        then (no_addresses, [])
        else if any_rejected ips
        then (resolves_to_private, [])
        else try_each port ips

    unfoldable pub dial_host : Text × Text → Dialed × List Text
    dial_host (host, port) = elim (resolve host) [
      | none ↦ (unresolved, [])
      | some ips ↦ dial_resolved port ips
    ]

    -- The function that makeSSRFSafeDialContext returns.
    unfoldable pub dial_context : Text → Dialed × List Text
    unfolding dial_host dial_resolved try_each any_rejected
    dial_context addr = elim (split_host_port addr) [
      | none ↦ (bad_address, [])
      | some host_port ↦ dial_host host_port
    ]

    after_attempt-All {ℓ} :
        (P : Text → Type ℓ) (addr : Text) (rest : Dialed × List Text)
        → P addr
        → All P rest.1
        → All P (after_attempt addr rest).1
    unfolding after_attempt
    after_attempt-All P addr rest p h = elim (Bool-cases (connects addr)) [
      | inl e ↦ rw e (p, tt)
      | inr e ↦ rw e (p, h)
    ]

    pub try_each-Vetted :
        (port : Text) (ips : List Text)
        → any_rejected ips ≡ false
        → All (Vetted port ips) (try_each port ips).1
    unfolding try_each any_rejected
    try_each-Vetted port [] h = tt
    try_each-Vetted port (ip ∷ ips) h =
        let passed : rejects ip ≡ false = ground arith in
        let others : any_rejected ips ≡ false = ground arith in
        elim (Bool-cases (cancelled (ip ∷ ips))) [
          | inl e ↦ rw e tt
          | inr e ↦ rw e (
              after_attempt-All _ _ _ (ip, mem-cons_self, passed, refl)
                (All-map _ (λ a v. (v.0, mem-cons_of_mem ip v.1, v.2, v.3))
                  (try_each-Vetted port ips others)))
        ]

    -- Every address that the dialer dials is one that the host resolved to, with the port of the
    -- target, and one that does not parse as a private address; and it dials none at all if any
    -- resolved address is private.
    pub dial_context-Vetted :
        (addr host port : Text) (ips : List Text)
        → split_host_port addr ≡ some (host, port)
        → resolve host ≡ some ips
        → All (λ a. Vetted port ips a × (any_rejected ips ≡ false)) (dial_context addr).1
    unfolding dial_context dial_host dial_resolved
    dial_context-Vetted addr host port ips split resolved =
        rw (split, dial_context, resolved, dial_host)
          (elim (Bool-cases (is_empty ips)) [
            | inl e ↦ rw e tt
            | inr e ↦ elim (Bool-cases (any_rejected ips)) [
              | inl f ↦ rw (e, f) tt
              | inr f ↦ rw (e, f) (All-map _ (λ a v. (v, refl)) (try_each-Vetted port ips f))
            ]
          ])
