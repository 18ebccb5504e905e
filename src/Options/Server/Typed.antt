-- ===== src/Options/Server/Typed.antt =====
-- What libssh documents for the options of an acceptor, against the types of options.
use corosh.Base.{◌≡◌, ◌⊎◌, inl, inr, refl, ap, sym, ◌∙◌}
use corosh.Options.Kinds.{
  CType, bool_pointer, const_char_pointer, int_pointer, ssh_key, unsigned_int_pointer, stored,
}
use corosh.Options.Server.{SshBindOptionsE, ServerOption, option, template_of}
use corosh.Options.Server as O

-- The type that libssh documents for the option.
unfoldable pub documented : SshBindOptionsE → CType
documented O.ssh_bind_options_bindaddr = const_char_pointer
documented O.ssh_bind_options_bindport = unsigned_int_pointer
documented O.ssh_bind_options_bindport_str = const_char_pointer
documented O.ssh_bind_options_hostkey = const_char_pointer
documented O.ssh_bind_options_dsakey = const_char_pointer
documented O.ssh_bind_options_rsakey = const_char_pointer
documented O.ssh_bind_options_ecdsakey = const_char_pointer
documented O.ssh_bind_options_banner = const_char_pointer
documented O.ssh_bind_options_log_verbosity = int_pointer
documented O.ssh_bind_options_log_verbosity_str = const_char_pointer
documented O.ssh_bind_options_import_key = ssh_key
documented O.ssh_bind_options_import_key_str = const_char_pointer
documented O.ssh_bind_options_key_exchange = const_char_pointer
documented O.ssh_bind_options_ciphers_c_s = const_char_pointer
documented O.ssh_bind_options_ciphers_s_c = const_char_pointer
documented O.ssh_bind_options_hmac_c_s = const_char_pointer
documented O.ssh_bind_options_hmac_s_c = const_char_pointer
documented O.ssh_bind_options_config_dir = const_char_pointer
documented O.ssh_bind_options_pubkey_accepted_key_types = const_char_pointer
documented O.ssh_bind_options_hostkey_algorithms = const_char_pointer
documented O.ssh_bind_options_process_config = bool_pointer
documented O.ssh_bind_options_moduli = const_char_pointer
documented O.ssh_bind_options_rsa_min_size = int_pointer

-- The type of options for an option of libssh.
alias : SshBindOptionsE → ServerOption
alias O.ssh_bind_options_bindaddr = O.bind_addr
alias O.ssh_bind_options_bindport = O.bind_port
alias O.ssh_bind_options_bindport_str = O.bind_port_str
alias O.ssh_bind_options_hostkey = O.host_key
alias O.ssh_bind_options_dsakey = O.dsa_key
alias O.ssh_bind_options_rsakey = O.rsa_key
alias O.ssh_bind_options_ecdsakey = O.ecdsa_key
alias O.ssh_bind_options_banner = O.banner
alias O.ssh_bind_options_log_verbosity = O.log_verbosity
alias O.ssh_bind_options_log_verbosity_str = O.log_verbosity_str
alias O.ssh_bind_options_import_key = O.import_key
alias O.ssh_bind_options_import_key_str = O.import_key_str
alias O.ssh_bind_options_key_exchange = O.key_exchange
alias O.ssh_bind_options_ciphers_c_s = O.ciphers_c_s
alias O.ssh_bind_options_ciphers_s_c = O.ciphers_s_c
alias O.ssh_bind_options_hmac_c_s = O.hmac_c_s
alias O.ssh_bind_options_hmac_s_c = O.hmac_s_c
alias O.ssh_bind_options_config_dir = O.config_dir
alias O.ssh_bind_options_pubkey_accepted_key_types = O.pubkey_accepted_key_types
alias O.ssh_bind_options_hostkey_algorithms = O.hostkey_algorithms
alias O.ssh_bind_options_process_config = O.process_config
alias O.ssh_bind_options_moduli = O.moduli
alias O.ssh_bind_options_rsa_min_size = O.rsa_min_size

alias-option : (o : ServerOption) → alias (option o) ≡ o
unfolding alias option
alias-option O.bind_addr = refl
alias-option O.bind_port = refl
alias-option O.bind_port_str = refl
alias-option O.host_key = refl
alias-option O.dsa_key = refl
alias-option O.rsa_key = refl
alias-option O.ecdsa_key = refl
alias-option O.banner = refl
alias-option O.log_verbosity = refl
alias-option O.log_verbosity_str = refl
alias-option O.import_key = refl
alias-option O.import_key_str = refl
alias-option O.key_exchange = refl
alias-option O.ciphers_c_s = refl
alias-option O.ciphers_s_c = refl
alias-option O.hmac_c_s = refl
alias-option O.hmac_s_c = refl
alias-option O.config_dir = refl
alias-option O.pubkey_accepted_key_types = refl
alias-option O.hostkey_algorithms = refl
alias-option O.process_config = refl
alias-option O.moduli = refl
alias-option O.rsa_min_size = refl

-- What a type of options stores is of the type that libssh documents, but for `process_config`, which stores an
-- `int` where libssh reads a `bool`.
pub typed :
    (o : ServerOption) → (o ≡ O.process_config) ⊎ (stored (template_of o) ≡ documented (option o))
unfolding template_of option documented stored
typed O.bind_addr = inr refl
typed O.bind_port = inr refl
typed O.bind_port_str = inr refl
typed O.host_key = inr refl
typed O.dsa_key = inr refl
typed O.rsa_key = inr refl
typed O.ecdsa_key = inr refl
typed O.banner = inr refl
typed O.log_verbosity = inr refl
typed O.log_verbosity_str = inr refl
typed O.import_key = inr refl
typed O.import_key_str = inr refl
typed O.key_exchange = inr refl
typed O.ciphers_c_s = inr refl
typed O.ciphers_s_c = inr refl
typed O.hmac_c_s = inr refl
typed O.hmac_s_c = inr refl
typed O.config_dir = inr refl
typed O.pubkey_accepted_key_types = inr refl
typed O.hostkey_algorithms = inr refl
typed O.process_config = inl refl
typed O.moduli = inr refl
typed O.rsa_min_size = inr refl

-- No two types of options stand for the same option of libssh.
pub option_injective : (a b : ServerOption) → option a ≡ option b → a ≡ b
option_injective a b e = sym (alias-option a) ∙ ap alias e ∙ alias-option b
