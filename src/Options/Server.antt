-- ===== src/Options/Server.antt =====
-- The options of an acceptor: include/corosh/server_options.hpp from line 135 on.
pub mod Typed
use corosh.Options.Kinds.{
  Template, bool_option, cstring_option, int_option, key_option, unsigned_int_option,
}

-- The enumerators of `ssh_bind_options_e` that the types name.
pub data SshBindOptionsE : Type 0 where
  ssh_bind_options_bindaddr ssh_bind_options_bindport : SshBindOptionsE
  ssh_bind_options_bindport_str ssh_bind_options_hostkey ssh_bind_options_dsakey : SshBindOptionsE
  ssh_bind_options_rsakey ssh_bind_options_ecdsakey ssh_bind_options_banner : SshBindOptionsE
  ssh_bind_options_log_verbosity ssh_bind_options_log_verbosity_str : SshBindOptionsE
  ssh_bind_options_import_key ssh_bind_options_import_key_str : SshBindOptionsE
  ssh_bind_options_key_exchange ssh_bind_options_ciphers_c_s : SshBindOptionsE
  ssh_bind_options_ciphers_s_c ssh_bind_options_hmac_c_s : SshBindOptionsE
  ssh_bind_options_hmac_s_c ssh_bind_options_config_dir : SshBindOptionsE
  ssh_bind_options_pubkey_accepted_key_types ssh_bind_options_hostkey_algorithms : SshBindOptionsE
  ssh_bind_options_process_config ssh_bind_options_moduli : SshBindOptionsE
  ssh_bind_options_rsa_min_size : SshBindOptionsE

-- The types of options, by the names that `using` gives them.
pub data ServerOption : Type 0 where
  bind_addr bind_port bind_port_str host_key dsa_key rsa_key ecdsa_key banner : ServerOption
  log_verbosity log_verbosity_str import_key import_key_str key_exchange : ServerOption
  ciphers_c_s ciphers_s_c hmac_c_s hmac_s_c config_dir pubkey_accepted_key_types : ServerOption
  hostkey_algorithms process_config moduli rsa_min_size : ServerOption

-- `option()`
unfoldable pub option : ServerOption → SshBindOptionsE
option bind_addr = ssh_bind_options_bindaddr
option bind_port = ssh_bind_options_bindport
option bind_port_str = ssh_bind_options_bindport_str
option host_key = ssh_bind_options_hostkey
option dsa_key = ssh_bind_options_dsakey
option rsa_key = ssh_bind_options_rsakey
option ecdsa_key = ssh_bind_options_ecdsakey
option banner = ssh_bind_options_banner
option log_verbosity = ssh_bind_options_log_verbosity
option log_verbosity_str = ssh_bind_options_log_verbosity_str
option import_key = ssh_bind_options_import_key
option import_key_str = ssh_bind_options_import_key_str
option key_exchange = ssh_bind_options_key_exchange
option ciphers_c_s = ssh_bind_options_ciphers_c_s
option ciphers_s_c = ssh_bind_options_ciphers_s_c
option hmac_c_s = ssh_bind_options_hmac_c_s
option hmac_s_c = ssh_bind_options_hmac_s_c
option config_dir = ssh_bind_options_config_dir
option pubkey_accepted_key_types = ssh_bind_options_pubkey_accepted_key_types
option hostkey_algorithms = ssh_bind_options_hostkey_algorithms
option process_config = ssh_bind_options_process_config
option moduli = ssh_bind_options_moduli
option rsa_min_size = ssh_bind_options_rsa_min_size

-- The class template.
unfoldable pub template_of : ServerOption → Template
template_of bind_addr = cstring_option
template_of bind_port = unsigned_int_option
template_of bind_port_str = cstring_option
template_of host_key = cstring_option
template_of dsa_key = cstring_option
template_of rsa_key = cstring_option
template_of ecdsa_key = cstring_option
template_of banner = cstring_option
template_of log_verbosity = int_option
template_of log_verbosity_str = cstring_option
template_of import_key = key_option
template_of import_key_str = cstring_option
template_of key_exchange = cstring_option
template_of ciphers_c_s = cstring_option
template_of ciphers_s_c = cstring_option
template_of hmac_c_s = cstring_option
template_of hmac_s_c = cstring_option
template_of config_dir = cstring_option
template_of pubkey_accepted_key_types = cstring_option
template_of hostkey_algorithms = cstring_option
template_of process_config = bool_option
template_of moduli = cstring_option
template_of rsa_min_size = int_option
