-- ===== src/Programs/Client.antt =====
-- `ssh_main` of example/client.cpp up to the handshake of SFTP. The output is left out; the password that
-- `getpass` reads is a parameter.
use corosh.Base.{
  ℕ, ◌≡◌, refl, ap, ◌∙◌, arith, Bool, false, not, ◌&&◌, Option, none, some, ◌==◌, bit_and,
  if◌then◌else◌,
}
use corosh.Base.Int.{ℤ, eq_ℤ}
use corosh.Base.Host.{Endian}
use corosh.Base.Text.{Text, bytes_of}
use corosh.Errors.{ErrorCode, failed}
use corosh.Poll.{World, rc_ok}
use corosh.Session as S
use corosh.Session.{Userauth, userauth_none, userauth_publickey_auto, userauth_password}
use corosh.Session.Callbacks.{auth_denied}
use corosh.Session.Forwarding as F
use corosh.Channel.Requests as C
use corosh.Options.{set_option}
use corosh.Options.Kinds.{
  Pointee, Argument, pointee, construct, cstring_option, int_option, unsigned_int_option,
}
use corosh.Options.Session as O
use corosh.Programs.Main.{or_one, then_with, unless_failed}

-- SSH_AUTH_METHOD_PASSWORD and SSH_AUTH_METHOD_PUBLICKEY
abbrev pub method_password : ℕ
method_password = 2

abbrev pub method_publickey : ℕ
method_publickey = 4

abbrev pub AuthResult : Type 0
AuthResult = ErrorCode × ℤ

module _ (w : World) (slib : S.Libssh w.State) (flib : F.Libssh w.State)
    (version_minor fuel : ℕ) where
  abbrev pub attempt : Userauth → w.State → Option (AuthResult × w.State)
  attempt = S.authenticate w slib version_minor fuel

  -- The test in front of each further method: `ec` and `r` refer to the result of the last one, `md` is the list of
  -- methods after the first.
  abbrev pub to_try : AuthResult → ℕ → ℕ → Bool
  to_try res md bit = not (failed res.0) && eq_ℤ res.1 auth_denied && not (bit_and md bit == 0)

  unfoldable pub try_method : Bool → Userauth → AuthResult → w.State → Option (AuthResult × w.State)
  try_method wanted method res s = if wanted then attempt method s else some (res, s)

  unfoldable pub sign_in : Text → w.State → Option (AuthResult × w.State)
  unfolding try_method
  sign_in password s = then_with (attempt userauth_none s) λ res s1.
      let (md, s2) = F.userauth_list w flib s1 in
      then_with (try_method (to_try res md method_publickey) (userauth_publickey_auto none) res s2)
        λ res' s3. try_method (to_try res' md method_password) (userauth_password password) res' s3

  module _ (host : Endian) (clib : C.Libssh w.State)
      (options_set : O.SshOptionsE → Pointee → w.State → ℤ × w.State) where
    abbrev pub set :
        (o : O.SessionOption)
        → Argument (O.template_of o)
        → w.State
        → S.Completion (Unit {0}) × w.State
    set o v =
        set_option w options_set (O.option o)
          (pointee host (O.template_of o) (construct (O.template_of o) v))

    -- Behind the authentication, whose result is not looked at; `sftp` is what follows.
    unfoldable pub open_channel : (w.State → Option (ℕ × w.State)) → w.State → Option (ℕ × w.State)
    open_channel sftp s = then_with (C.perform w clib fuel (C.opening C.open_session) s) λ ec s1.
        unless_failed ec s1 (
          then_with (C.perform w clib fuel (C.request C.request_sftp) s1)
            λ ec' s2. unless_failed ec' s2 (sftp s2))

    -- SSH_LOG_INFO is 2; the value that the source names `verbosity` is not used.
    unfoldable pub ssh_main :
        Text → (w.State → Option (ℕ × w.State)) → w.State → Option (ℕ × w.State)
    unfolding sign_in open_channel O.template_of
    ssh_main password sftp s = or_one (set O.host (bytes_of "localhost") s) λ u1 s1.
        or_one (set O.log_verbosity 2 s1) λ u2 s2. or_one (set O.port 22 s2) λ u3 s3.
          or_one (set O.user (bytes_of "klemens") s3) λ u4 s4.
            then_with (S.connect w slib fuel s4) λ connected s5.
              or_one (connected, s5)
                λ ec s6.
                  unless_failed ec s6
                    (then_with (sign_in password s6) λ res s7. open_channel sftp s7)

    -- The state behind the four options, with a libssh that accepts them.
    abbrev configured : (O.SshOptionsE → Pointee → w.State → w.State) → w.State → w.State
    configured store s =
        store (O.option O.user) (pointee host cstring_option (bytes_of "klemens")) (
          store (O.option O.port) (pointee host unsigned_int_option 22) (
            store (O.option O.log_verbosity) (pointee host int_option 2)
              (store (O.option O.host) (pointee host cstring_option (bytes_of "localhost")) s)))

    set_accepted :
        (store : O.SshOptionsE → Pointee → w.State → w.State)
        → ((e : O.SshOptionsE) (p : Pointee) (t : w.State)
            → options_set e p t ≡ (rc_ok, store e p t))
        → (e : O.SshOptionsE) (p : Pointee) (t : w.State)
        → set_option w options_set e p t ≡ (S.returned tt, store e p t)
    unfolding set_option
    set_accepted store accepts e p t = rw (accepts e p t)

    -- Once libssh has accepted the options and the session is connected, the client opens a channel and goes on,
    -- whatever the result of the authentication, be it a success, a denial or an error.
    pub ssh_main_any_result :
        (store : O.SshOptionsE → Pointee → w.State → w.State)
        → ((e : O.SshOptionsE) (p : Pointee) (t : w.State)
            → options_set e p t ≡ (rc_ok, store e p t))
        → (password : Text) (sftp : w.State → Option (ℕ × w.State)) (s s6 s7 : w.State)
          (ec : ErrorCode) (res : AuthResult)
        → S.connect w slib fuel (configured store s) ≡ some (S.returned ec, s6)
        → failed ec ≡ false
        → sign_in password s6 ≡ some (res, s7)
        → ssh_main password sftp s ≡ open_channel sftp s7
    unfolding ssh_main O.template_of construct or_one then_with unless_failed
    ssh_main_any_result store accepts password sftp s s6 s7 ec res connects fine signs =
        rw
          (
            set_accepted store accepts,
            set_accepted store accepts,
            set_accepted store accepts,
            set_accepted store accepts,
            connects,
            fine,
            signs,
          )
          refl

  not_tried :
      (method : Userauth) (res : AuthResult) (md bit : ℕ) (s : w.State)
      → (not (failed res.0) && eq_ℤ res.1 auth_denied) ≡ false
      → try_method (to_try res md bit) method res s ≡ some (res, s)
  unfolding try_method
  not_tried method res md bit s settled = ground (arith, settled)

  -- Where the first authentication is not denied, no other is tried, and its result is that of the whole.
  pub sign_in_settled :
      (password : Text) (s s1 : w.State) (res : AuthResult)
      → attempt userauth_none s ≡ some (res, s1)
      → (not (failed res.0) && eq_ℤ res.1 auth_denied) ≡ false
      → sign_in password s ≡ some (res, (flib.userauth_list s1).1)
  unfolding sign_in then_with F.userauth_list
  sign_in_settled password s s1 res first settled =
      let (md, listed) = flib.userauth_list s1 in
      rw first (
        ap
          (λ r. then_with r λ res' s3.
            try_method (to_try res' md method_password) (userauth_password password) res' s3)
          (not_tried (userauth_publickey_auto none) res md method_publickey listed settled)
        ∙ not_tried (userauth_password password) res md method_password listed settled)
