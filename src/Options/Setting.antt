-- ===== src/Options/Setting.antt =====
-- `set_option` of a session and of an acceptor, against a libssh that goes by what it reads.
use corosh.Base.{if◌then◌else◌, ◌≡◌, ◌≢◌, inl, inr, sym, ap, some, ◌∙◌}
use corosh.Base.Int.{ℤ, pos, eq_ℤ}
use corosh.Base.Host.{Endian}
use corosh.Poll.{World}
use corosh.Errors.{Category}
use corosh.Session.{Completion, returned, thrown}
use corosh.Options.{set_option}
use corosh.Options.Kinds.{Template, Argument, construct, Pointee, pointee, CType, stored}
use corosh.Options.Received.{Reading, read_as, meant, Fits, read_as-pointee}
use corosh.Options.Session as S
use corosh.Options.Session.Typed as ST
use corosh.Options.Server as B
use corosh.Options.Server.Typed as BT

-- libssh as its documentation describes it: it reads an object of the type that the option asks for, and what it
-- does and returns, be it that it keeps the value or that it refuses it, depends on what it has read.
pub record Reads (host : Endian) (w : World) {E : Type 0} (documented : E → CType)
    (options_set : E → Pointee → w.State → ℤ × w.State)
    (taken : E → Reading → w.State → ℤ × w.State) : Type 0 where
  pub read :
      (e : E) (p : Pointee) (r : Reading) (s : w.State)
      → read_as host (documented e) p ≡ some r
      → options_set e p s ≡ taken e r s

received :
    (host : Endian) {E : Type 0} (documented : E → CType) (e : E) (t : Template) (v : Argument t)
    → stored t ≡ documented e
    → Fits t v
    → read_as host (documented e) (pointee host t (construct t v)) ≡ some (meant t v)
received host documented e t v typed fits =
    ap (λ c. read_as host c (pointee host t (construct t v))) (sym typed)
    ∙ (read_as-pointee host t v fits).1

-- What becomes of a return value: SSH_OK is success, any other an exception with libssh's error code.
abbrev pub completed : (w : World) → ℤ × w.State → Completion (Unit {0}) × w.State
completed w (rc, s) = (
  if eq_ℤ rc (pos 0)
      then returned tt
      else thrown (record { value = w.error_code s; category = Category.ssh }),
  s,
)

module _ {host : Endian} {w : World} where
  set_option-received :
      {E : Type 0} {documented : E → CType} {options_set : E → Pointee → w.State → ℤ × w.State}
      {taken : E → Reading → w.State → ℤ × w.State}
      (reads : Reads host w documented options_set taken) (e : E) (p : Pointee) (r : Reading)
      (s : w.State)
      → read_as host (documented e) p ≡ some r
      → set_option w options_set e p s ≡ completed w (taken e r s)
  unfolding set_option
  set_option-received reads e p r s h = rw (reads.read e p r s h)

  -- Setting an option of a session, each but `process_config`, to a value that fits its type: libssh, which reads an
  -- object of the type that it documents for the option, reads that value, and what it then does and returns is
  -- what it does with that value for that option; if it returns SSH_OK, the option is set, and else an exception is thrown with the error code that libssh
  -- then has.
  pub session_set_option-received :
      {options_set : S.SshOptionsE → Pointee → w.State → ℤ × w.State}
      {taken : S.SshOptionsE → Reading → w.State → ℤ × w.State}
      (reads : Reads host w ST.documented options_set taken) (o : S.SessionOption)
      (v : Argument (S.template_of o)) (s : w.State)
      → o ≢ S.process_config
      → Fits (S.template_of o) v
      → set_option w options_set
          (S.option o)
          (pointee host (S.template_of o) (construct (S.template_of o) v))
          s
        ≡ completed w (taken (S.option o) (meant (S.template_of o) v) s)
  session_set_option-received reads o v s other fits = elim (ST.typed o) [
    | inl same ↦ absurd (other same)
    | inr typed ↦ set_option-received reads _ _ _ s (received host ST.documented _ _ v typed fits)
  ]

  -- The same for the options of an acceptor.
  pub acceptor_set_option-received :
      {options_set : B.SshBindOptionsE → Pointee → w.State → ℤ × w.State}
      {taken : B.SshBindOptionsE → Reading → w.State → ℤ × w.State}
      (reads : Reads host w BT.documented options_set taken) (o : B.ServerOption)
      (v : Argument (B.template_of o)) (s : w.State)
      → o ≢ B.process_config
      → Fits (B.template_of o) v
      → set_option w options_set
          (B.option o)
          (pointee host (B.template_of o) (construct (B.template_of o) v))
          s
        ≡ completed w (taken (B.option o) (meant (B.template_of o) v) s)
  acceptor_set_option-received reads o v s other fits = elim (BT.typed o) [
    | inl same ↦ absurd (other same)
    | inr typed ↦ set_option-received reads _ _ _ s (received host BT.documented _ _ v typed fits)
  ]
