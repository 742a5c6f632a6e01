-- ===== src/Notify/Email/Smtp.antt =====
-- sendSMTP and isLoopback of internal/notify/email.go: the dialogue with the server, as the list
-- of the calls that are made. Which calls fail is a parameter, and so is net.ParseIP.
use cron_mon.Base.{
  ℕ, ◌+◌, Bool, false, ◌&&◌, ◌||◌, not, Option, none, some, List, [], ◌∷◌, ◌++◌, map, replicate,
  leb, ◌==◌, if◌then◌else◌,
}
use cron_mon.Base.Text.{Text, text_eq, is_empty, quoted}
use cron_mon.Net.{join_host_port}
use cron_mon.Notify.Ip.{Ip, to4}

-- EmailConfig
pub record EmailConfig : Type 0 where
  pub host : Text
  pub port : Text
  pub user : Text
  pub pass : Text
  pub from : Text
  pub tls : Bool
  pub base_url : Text

-- The letter that folds to the same as `c` and is in the lower case of ASCII, if there is one.
fold : ℕ → ℕ
fold c =
    if leb b'A' c && leb c b'Z'
    then c + 32
    else if c == 0x17f
    then b's'
    else if c == 0x212a
    then b'k'
    else c

-- strings.EqualFold(s, t), for a `t` of lower-case letters of ASCII.
unfoldable pub equal_fold : Text → Text → Bool
unfolding fold text_eq
equal_fold s t = text_eq (map fold s) t

-- ip.IsLoopback()
unfoldable pub is_loopback_ip : Ip → Bool
unfolding to4 text_eq
is_loopback_ip ip = elim (to4 ip) [
  | some [] ↦ false
  | some (a ∷ rest) ↦ a == 127
  | none ↦ text_eq ip (replicate 15 0 ++ 1 ∷ [])
]

-- isLoopback
unfoldable pub is_loopback : (Text → Option Ip) → Text → Bool
unfolding equal_fold is_loopback_ip
is_loopback parse_ip host =
    equal_fold host (quoted "localhost")
    || elim (parse_ip host) [ none ↦ false | some ip ↦ is_loopback_ip ip ]

-- The calls of sendSMTP that reach the network, in the words of the code.
pub data Call : Type 0 where
  dial : Text → Call
  set_deadline new_client start_tls : Call
  auth : Text → Text → Call
  mail rcpt : Text → Call
  data_command : Call
  write : Text → Call
  close_writer close : Call

-- Why a message is not sent.
pub data SmtpError : Type 0 where
  failed_at : Call → SmtpError
  refused_credentials : SmtpError

-- The calls that were made, and the error if there was one.
abbrev pub Dialogue : Type 0
Dialogue = List Call × Option SmtpError

-- The connection is closed whether or not the dialogue succeeds.
unfoldable pub closing : Dialogue → Dialogue
closing (calls, error) = (calls ++ close ∷ [], error)

module _ (fails : Call → Bool) where
  -- A call, and what follows unless it fails.
  unfoldable pub call : Call → Dialogue → Dialogue
  call c next = if fails c then (c ∷ [], some (failed_at c)) else (c ∷ next.0, next.1)

  -- A call that the code makes on a condition.
  unfoldable pub call_if : Bool → Call → Dialogue → Dialogue
  unfolding call
  call_if needed c next = if needed then call c next else next

  -- Envelope + body
  unfoldable pub envelope : Text → Text → Text → Dialogue
  unfolding call
  envelope from to message =
      call (mail from)
        (call (rcpt to) (call data_command (call (write message) (call close_writer ([], none)))))

  module _ (parse_ip : Text → Option Ip) where
    -- Optional AUTH
    unfoldable pub authenticated : EmailConfig → Dialogue → Dialogue
    unfolding call is_loopback
    authenticated cfg next =
        if is_empty cfg.user
        then next
        else if not cfg.tls && not (is_loopback parse_ip cfg.host)
        then ([], some refused_credentials)
        else call (auth cfg.user cfg.pass) next

    -- sendSMTP; `deadline` is whether the context has one.
    unfoldable pub send_smtp : Bool → EmailConfig → Text → Text → Dialogue
    unfolding call call_if closing authenticated envelope join_host_port
    send_smtp deadline cfg to message = call (dial (join_host_port cfg.host cfg.port)) (
        closing (
          call_if deadline set_deadline (
            call new_client
              (call_if cfg.tls start_tls (authenticated cfg (envelope cfg.from to message))))))
