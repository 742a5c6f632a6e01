-- ===== src/Notify/Email/Credentials.antt =====
-- What sendSMTP of internal/notify/email.go sends the SMTP credentials over.
use cron_mon.Base.{
  ◌≡◌, refl, inl, inr, Bool, true, false, ◌&&◌, ◌||◌, not, Option, none, List, [], ◌∷◌, ◌++◌, arith,
  Bool-cases,
}
use cron_mon.Base.Text.{Text, is_empty}
use cron_mon.Notify.Ip.{Ip}
use cron_mon.Notify.Email.Smtp.{
  EmailConfig, is_loopback, Call, dial, set_deadline, new_client, start_tls, auth, mail, rcpt,
  data_command, write, close_writer, close, Dialogue, call, call_if, closing, envelope,
  authenticated, send_smtp,
}

module _ (fails : Call → Bool) where
  -- Whether a call may be made on a connection that is safe or not, and what it makes of that.
  abbrev pub allowed : Bool → Call → Bool
  allowed safe (auth user pass) = safe
  allowed safe _ = true

  abbrev pub safe_after : Bool → Call → Bool
  safe_after safe start_tls = safe || not (fails start_tls)
  safe_after safe _ = safe

  -- Watches the calls of a dialogue: false if credentials were sent on an unsafe connection.
  unfoldable pub confidential : Bool → List Call → Bool
  confidential safe [] = true
  confidential safe (c ∷ calls) = allowed safe c && confidential (safe_after safe c) calls

  confidential-call :
      (safe : Bool) (c : Call) (next : Dialogue)
      → allowed safe c ≡ true
      → (fails c ≡ false → confidential (safe_after safe c) next.0 ≡ true)
      → confidential safe (call fails c next).0 ≡ true
  unfolding call confidential
  confidential-call safe c next may h = elim (Bool-cases (fails c)) [
    | inl e ↦ rw (e, may) refl
    | inr e ↦ rw (e, may) (h e)
  ]

  confidential-closing :
      (safe : Bool) (calls : List Call)
      → confidential safe calls ≡ true
      → confidential safe (calls ++ close ∷ []) ≡ true
  unfolding confidential
  confidential-closing safe [] h = refl
  confidential-closing safe (c ∷ calls) h =
      let may : allowed safe c ≡ true = ground arith in
      let rest : confidential (safe_after safe c) calls ≡ true = ground arith in
      rw (may) (confidential-closing (safe_after safe c) calls rest)

  confidential-envelope :
      (safe : Bool) (from to message : Text)
      → confidential safe (envelope fails from to message).0 ≡ true
  unfolding envelope confidential
  confidential-envelope safe from to message = confidential-call safe (mail from) _ refl (λ _.
      confidential-call safe (rcpt to) _ refl (λ _. confidential-call safe data_command _ refl (λ _.
        confidential-call safe (write message) _ refl
          (λ _. confidential-call safe close_writer ([], none) refl (λ _. refl)))))

  confidential-call_if :
      (safe needed : Bool) (c : Call) (next : Dialogue)
      → allowed safe c ≡ true
      → safe_after safe c ≡ safe
      → confidential safe next.0 ≡ true
      → confidential safe (call_if fails needed c next).0 ≡ true
  unfolding call_if
  confidential-call_if safe true c next may same h =
      confidential-call safe c next may (λ _. rw same h)
  confidential-call_if safe false c next may same h = h

  module _ (parse_ip : Text → Option Ip) where
    confidential-authenticated :
        (safe : Bool) (cfg : EmailConfig) (next : Dialogue)
        → (cfg.tls || is_loopback parse_ip cfg.host ≡ true → safe ≡ true)
        → confidential safe next.0 ≡ true
        → confidential safe (authenticated fails parse_ip cfg next).0 ≡ true
    unfolding authenticated confidential
    confidential-authenticated safe cfg next reason h = elim (Bool-cases (is_empty cfg.user)) [
      | inl e ↦ rw e h
      | inr e ↦ elim (Bool-cases (cfg.tls || is_loopback parse_ip cfg.host)) [
        | inl f ↦
            let safe_yes : safe ≡ true = reason f in
            let open_way : not cfg.tls && not (is_loopback parse_ip cfg.host) ≡ false =
              ground arith in
            rw (e, open_way)
              (confidential-call safe (auth cfg.user cfg.pass) next safe_yes (λ _. h))
        | inr f ↦
            let no_way : not cfg.tls && not (is_loopback parse_ip cfg.host) ≡ true = ground arith in
            rw (e, no_way) refl
      ]
    ]

    confidential-start_tls :
        (cfg : EmailConfig) (next : Dialogue)
        → let local = is_loopback parse_ip cfg.host in
          ((safe : Bool)
            → (cfg.tls || local ≡ true → safe ≡ true)
            → confidential safe next.0 ≡ true)
          → confidential local (call_if fails cfg.tls start_tls next).0 ≡ true
    unfolding call_if
    confidential-start_tls cfg next h =
        let local = is_loopback parse_ip cfg.host in
        elim (Bool-cases cfg.tls) [
          | inl e ↦ rw e (
              confidential-call local start_tls next refl
                (λ works. h (local || not (fails start_tls)) (λ _. ground arith)))
          | inr e ↦ rw e (h local (λ r. ground arith))
        ]

    -- sendSMTP sends the user name and the password only after STARTTLS has succeeded, or to a
    -- loopback host, whichever calls fail.
    pub confidential-send_smtp :
        (deadline : Bool) (cfg : EmailConfig) (to message : Text)
        → confidential
            (is_loopback parse_ip cfg.host)
            (send_smtp fails parse_ip deadline cfg to message).0
          ≡ true
    unfolding send_smtp closing
    confidential-send_smtp deadline cfg to message =
        let local = is_loopback parse_ip cfg.host in
        let last = envelope fails cfg.from to message in
        let login = authenticated fails parse_ip cfg last in
        let secure = call_if fails cfg.tls start_tls login in
        let tail = call fails new_client secure in
        confidential-call local (dial _) _ refl (λ _.
          confidential-closing local (call_if fails deadline set_deadline tail).0 (
            confidential-call_if local deadline set_deadline tail refl refl (
              confidential-call local new_client secure refl (λ _.
                confidential-start_tls cfg login (λ safe reason.
                  confidential-authenticated safe cfg last reason
                    (confidential-envelope safe cfg.from to message))))))
