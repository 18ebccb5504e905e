-- ===== src/Options/Session/Typed.antt =====
-- What libssh documents for the options of a session, against the types of options.
use corosh.Base.{◌≡◌, ◌⊎◌, inl, inr, refl, ap, sym, ◌∙◌}
use corosh.Options.Kinds.{
  CType, bool_pointer, const_char_pointer, int_pointer, long_pointer, uint32_pointer,
  uint64_pointer, unsigned_int_pointer, stored,
}
use corosh.Options.Session.{SshOptionsE, SessionOption, option, template_of}
use corosh.Options.Session as O

-- The type that libssh documents for the option.
unfoldable pub documented : SshOptionsE → CType
documented O.ssh_options_host = const_char_pointer
documented O.ssh_options_port = unsigned_int_pointer
documented O.ssh_options_port_str = const_char_pointer
documented O.ssh_options_fd = int_pointer
documented O.ssh_options_bindaddr = const_char_pointer
documented O.ssh_options_user = const_char_pointer
documented O.ssh_options_ssh_dir = const_char_pointer
documented O.ssh_options_knownhosts = const_char_pointer
documented O.ssh_options_global_knownhosts = const_char_pointer
documented O.ssh_options_add_identity = const_char_pointer
documented O.ssh_options_timeout = long_pointer
documented O.ssh_options_timeout_usec = long_pointer
documented O.ssh_options_log_verbosity = int_pointer
documented O.ssh_options_log_verbosity_str = const_char_pointer
documented O.ssh_options_ciphers_c_s = const_char_pointer
documented O.ssh_options_ciphers_s_c = const_char_pointer
documented O.ssh_options_key_exchange = const_char_pointer
documented O.ssh_options_hmac_c_s = const_char_pointer
documented O.ssh_options_hmac_s_c = const_char_pointer
documented O.ssh_options_hostkeys = const_char_pointer
documented O.ssh_options_publickey_accepted_types = const_char_pointer
documented O.ssh_options_compression_c_s = const_char_pointer
documented O.ssh_options_compression_s_c = const_char_pointer
documented O.ssh_options_compression = const_char_pointer
documented O.ssh_options_compression_level = int_pointer
documented O.ssh_options_stricthostkeycheck = int_pointer
documented O.ssh_options_proxycommand = const_char_pointer
documented O.ssh_options_gssapi_server_identity = const_char_pointer
documented O.ssh_options_gssapi_client_identity = const_char_pointer
documented O.ssh_options_gssapi_delegate_credentials = int_pointer
documented O.ssh_options_password_auth = int_pointer
documented O.ssh_options_pubkey_auth = int_pointer
documented O.ssh_options_kbdint_auth = int_pointer
documented O.ssh_options_gssapi_auth = int_pointer
documented O.ssh_options_nodelay = int_pointer
documented O.ssh_options_process_config = bool_pointer
documented O.ssh_options_rekey_data = uint64_pointer
documented O.ssh_options_rekey_time = uint32_pointer
documented O.ssh_options_rsa_min_size = int_pointer
documented O.ssh_options_identity_agent = const_char_pointer

-- The type of options for an option of libssh.
alias : SshOptionsE → SessionOption
alias O.ssh_options_host = O.host
alias O.ssh_options_port = O.port
alias O.ssh_options_port_str = O.port_str
alias O.ssh_options_fd = O.fd
alias O.ssh_options_bindaddr = O.binaddr
alias O.ssh_options_user = O.user
alias O.ssh_options_ssh_dir = O.ssh_dir
alias O.ssh_options_knownhosts = O.known_hosts
alias O.ssh_options_global_knownhosts = O.global_known_hosts
alias O.ssh_options_add_identity = O.add_identity
alias O.ssh_options_timeout = O.timeout
alias O.ssh_options_timeout_usec = O.timeout_usec
alias O.ssh_options_log_verbosity = O.log_verbosity
alias O.ssh_options_log_verbosity_str = O.log_verbosity_str
alias O.ssh_options_ciphers_c_s = O.ciphser_c_s
alias O.ssh_options_ciphers_s_c = O.ciphser_s_c
alias O.ssh_options_key_exchange = O.key_exchange
alias O.ssh_options_hmac_c_s = O.hmac_c_s
alias O.ssh_options_hmac_s_c = O.hmac_s_c
alias O.ssh_options_hostkeys = O.host_keys
alias O.ssh_options_publickey_accepted_types = O.public_key_accepted_types
alias O.ssh_options_compression_c_s = O.compression_c_s
alias O.ssh_options_compression_s_c = O.compression_s_c
alias O.ssh_options_compression = O.compression
alias O.ssh_options_compression_level = O.compression_level
alias O.ssh_options_stricthostkeycheck = O.stricthostkeycheck
alias O.ssh_options_proxycommand = O.proxycommand
alias O.ssh_options_gssapi_server_identity = O.gssapi_server_identity
alias O.ssh_options_gssapi_client_identity = O.gssapi_client_identity
alias O.ssh_options_gssapi_delegate_credentials = O.gssapi_delegate_credential
alias O.ssh_options_password_auth = O.password_auth
alias O.ssh_options_pubkey_auth = O.pubkey_auth
alias O.ssh_options_kbdint_auth = O.kbdint_auth
alias O.ssh_options_gssapi_auth = O.gssapi_auth
alias O.ssh_options_nodelay = O.nodelay
alias O.ssh_options_process_config = O.process_config
alias O.ssh_options_rekey_data = O.rekey_data
alias O.ssh_options_rekey_time = O.rekey_time
alias O.ssh_options_rsa_min_size = O.rsa_min_size
alias O.ssh_options_identity_agent = O.identity_agent

alias-option : (o : SessionOption) → alias (option o) ≡ o
unfolding alias option
alias-option O.host = refl
alias-option O.port = refl
alias-option O.port_str = refl
alias-option O.fd = refl
alias-option O.binaddr = refl
alias-option O.user = refl
alias-option O.ssh_dir = refl
alias-option O.known_hosts = refl
alias-option O.global_known_hosts = refl
alias-option O.add_identity = refl
alias-option O.timeout = refl
alias-option O.timeout_usec = refl
alias-option O.log_verbosity = refl
alias-option O.log_verbosity_str = refl
alias-option O.ciphser_c_s = refl
alias-option O.ciphser_s_c = refl
alias-option O.key_exchange = refl
alias-option O.hmac_c_s = refl
alias-option O.hmac_s_c = refl
alias-option O.host_keys = refl
alias-option O.public_key_accepted_types = refl
alias-option O.compression_c_s = refl
alias-option O.compression_s_c = refl
alias-option O.compression = refl
alias-option O.compression_level = refl
alias-option O.stricthostkeycheck = refl
alias-option O.proxycommand = refl
alias-option O.gssapi_server_identity = refl
alias-option O.gssapi_client_identity = refl
alias-option O.gssapi_delegate_credential = refl
alias-option O.password_auth = refl
alias-option O.pubkey_auth = refl
alias-option O.kbdint_auth = refl
alias-option O.gssapi_auth = refl
alias-option O.nodelay = refl
alias-option O.process_config = refl
alias-option O.rekey_data = refl
alias-option O.rekey_time = refl
alias-option O.rsa_min_size = refl
alias-option O.identity_agent = refl

-- What a type of options stores is of the type that libssh documents, but for `process_config`, which stores an
-- `int` where libssh reads a `bool`.
pub typed :
    (o : SessionOption) → (o ≡ O.process_config) ⊎ (stored (template_of o) ≡ documented (option o))
unfolding template_of option documented stored
typed O.host = inr refl
typed O.port = inr refl
typed O.port_str = inr refl
typed O.fd = inr refl
typed O.binaddr = inr refl
typed O.user = inr refl
typed O.ssh_dir = inr refl
typed O.known_hosts = inr refl
typed O.global_known_hosts = inr refl
typed O.add_identity = inr refl
typed O.timeout = inr refl
typed O.timeout_usec = inr refl
typed O.log_verbosity = inr refl
typed O.log_verbosity_str = inr refl
typed O.ciphser_c_s = inr refl
typed O.ciphser_s_c = inr refl
typed O.key_exchange = inr refl
typed O.hmac_c_s = inr refl
typed O.hmac_s_c = inr refl
typed O.host_keys = inr refl
typed O.public_key_accepted_types = inr refl
typed O.compression_c_s = inr refl
typed O.compression_s_c = inr refl
typed O.compression = inr refl
typed O.compression_level = inr refl
typed O.stricthostkeycheck = inr refl
typed O.proxycommand = inr refl
typed O.gssapi_server_identity = inr refl
typed O.gssapi_client_identity = inr refl
typed O.gssapi_delegate_credential = inr refl
typed O.password_auth = inr refl
typed O.pubkey_auth = inr refl
typed O.kbdint_auth = inr refl
typed O.gssapi_auth = inr refl
typed O.nodelay = inr refl
typed O.process_config = inl refl
typed O.rekey_data = inr refl
typed O.rekey_time = inr refl
typed O.rsa_min_size = inr refl
typed O.identity_agent = inr refl

-- No two types of options stand for the same option of libssh.
pub option_injective : (a b : SessionOption) → option a ≡ option b → a ≡ b
option_injective a b e = sym (alias-option a) ∙ ap alias e ∙ alias-option b
