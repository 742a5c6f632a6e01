-- ===== src/Notify/Client.antt =====
-- newSSRFSafeClient of internal/notify/ssrf.go, and what the notifiers use of package net/http. The
-- client of net/http is the parameter `exchange`.
use cron_mon.Base.{
  ℕ, ◌≡◌, inl, inr, Bool, false, Option, some, List, [], ◌∷◌, All, All-map, refl, Bool-cases,
  Option-cases,
}
use cron_mon.Base.Text.{Text, is_empty}
use cron_mon.Net.{split_host_port, join_host_port}
use cron_mon.Notify.Ip.{Ip}
use cron_mon.Notify.Ssrf.{
  Dialed, connected, any_rejected, Vetted, after_attempt, dial_host, dial_resolved, try_each,
  dial_context, try_each-Vetted,
}

-- A request with its Content-Type.
pub record Post : Type 0 where
  pub url : Text
  pub content_type : Text
  pub body : Text

-- A response; `read n` is io.ReadAll of the body up to n bytes, `none` if it fails. `urls` are the
-- URLs that were requested for it, as resp.Request and its chain of redirects have them, the first
-- one first.
pub record Reply : Type 0 where
  pub status : ℕ
  pub read : ℕ → Option Text
  pub urls : List Text

-- A client's Do, which is given the dialer of the client's transport.
abbrev pub Exchange : Type 0
Exchange = (Text → Dialed) → Post → Option Reply

-- What surrounds a client: net.ParseIP, the resolver, the context, the network and the client;
-- `dial_target` is the host and port, joined, that the transport dials for a URL.
pub record Network : Type 0 where
  pub parse_ip : Text → Option Ip
  pub resolve : Text → Option (List Text)
  pub cancelled : List Text → Bool
  pub connects : Text → Bool
  pub dial_target : Text → Text
  pub exchange : Exchange

-- What is documented of the client: the URL of the request is the first that is requested, others
-- are where redirects led, and each request goes over a connection that the dialer of the transport
-- made to the host and port of its URL.
abbrev pub NeedsConnection : Network → Type 0
NeedsConnection net =
    (dial : Text → Dialed) (post : Post) (reply : Reply)
    → net.exchange dial post ≡ some reply
    → ((redirects : List Text) × (reply.urls ≡ post.url ∷ redirects))
      × All (λ url. (addr : Text) × (dial (net.dial_target url) ≡ connected addr)) reply.urls

module _ (net : Network) where
  open net use {parse_ip, resolve, cancelled, connects}

  -- newSSRFSafeClient: the client's Do.
  unfoldable pub new_ssrf_safe_client : Post → Option Reply
  unfolding dial_context
  new_ssrf_safe_client post =
      net.exchange (λ target. (dial_context parse_ip resolve cancelled connects target).0) post

  -- The connection to a target: the dialer made it to an address that the host of the target
  -- resolved to, and neither it nor any other of these is private.
  pub record Reached (target : Text) : Type 0 where
    pub host : Text
    pub port : Text
    pub ips : List Text
    pub addr : Text
    pub split : split_host_port target ≡ some (host, port)
    pub resolved : resolve host ≡ some ips
    pub dialed : (dial_context parse_ip resolve cancelled connects target).0 ≡ connected addr
    pub vetted : Vetted parse_ip port ips addr
    pub others_vetted : any_rejected parse_ip ips ≡ false

  connected-All {ℓ} :
      (P : Text → Type ℓ) (port : Text) (ips : List Text) (addr : Text)
      → All P (try_each parse_ip resolve cancelled connects port ips).1
      → (try_each parse_ip resolve cancelled connects port ips).0 ≡ connected addr
      → P addr
  unfolding try_each after_attempt
  connected-All P port [] addr = λ h e. cc
  connected-All P port (ip ∷ ips) addr =
      let dialed = join_host_port ip port in
      elim (Bool-cases (cancelled (ip ∷ ips))) [
        | inl p ↦ rw p (λ h e. cc)
        | inr p ↦ elim (Bool-cases (connects dialed)) [
          | inl q ↦ rw (p, q) (λ h e. let same : dialed ≡ addr = cc in rw (← same) h.0)
          | inr q ↦ rw (p, q) (λ h e. connected-All P port ips addr h.1 e)
        ]
      ]

  dial_resolved-Vetted :
      (port : Text) (ips : List Text) (addr : Text)
      → (dial_resolved parse_ip resolve cancelled connects port ips).0 ≡ connected addr
      → Vetted parse_ip port ips addr × (any_rejected parse_ip ips ≡ false)
  unfolding dial_resolved
  dial_resolved-Vetted port ips addr = elim (Bool-cases (is_empty ips)) [
    | inl f ↦ rw f (λ e. cc)
    | inr f ↦ elim (Bool-cases (any_rejected parse_ip ips)) [
      | inl g ↦ rw (f, g) (λ e. cc)
      | inr g ↦
          rw (f, g)
            (λ e. (
              connected-All (Vetted parse_ip port ips) port ips addr
                  (try_each-Vetted parse_ip resolve cancelled connects port ips g) e,
              refl,
            ))
    ]
  ]

  -- A connection of the dialer is one to a vetted address of the target's host.
  dial_context-Reached :
      (target addr : Text)
      → (dial_context parse_ip resolve cancelled connects target).0 ≡ connected addr
      → Reached target
  unfolding dial_context dial_host
  dial_context-Reached target addr made = elim (Option-cases (split_host_port target)) [
    | inl p ↦ cc (rw (p, dial_context) at made)
    | inr ((host, port), p) ↦ elim (Option-cases (resolve host)) [
      | inl q ↦ cc (rw (p, dial_context, q, dial_host) at made)
      | inr (ips, q) ↦
          let v = dial_resolved-Vetted port ips addr (rw (p, dial_context, q, dial_host) at made) in
          record {
            host = host;
            port = port;
            ips = ips;
            addr = addr;
            split = p;
            resolved = q;
            dialed = made;
            vetted = v.0;
            others_vetted = v.1;
          }
    ]
  ]

  -- Each request of the client that led to a response went over such a connection.
  pub new_ssrf_safe_client-Reached :
      (post : Post) (reply : Reply)
      → NeedsConnection net
      → new_ssrf_safe_client post ≡ some reply
      → ((redirects : List Text) × (reply.urls ≡ post.url ∷ redirects))
        × All (λ url. Reached (net.dial_target url)) reply.urls
  unfolding new_ssrf_safe_client
  new_ssrf_safe_client-Reached post reply sound e =
      let c = sound _ post reply e in
      (c.0, All-map reply.urls (λ url d. dial_context-Reached (net.dial_target url) d.0 d.1) c.1)
