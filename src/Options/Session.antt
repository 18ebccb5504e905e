-- ===== src/Options/Session.antt =====
-- The options of a session: include/corosh/options.hpp from line 110 on.
pub mod Typed
use corosh.Options.Kinds.{
  Template, bool_option, cstring_option, int_option, long_option, uint32_option, uint64_option,
  unsigned_int_option,
}

-- The enumerators of `ssh_options_e` that the types name.
pub data SshOptionsE : Type 0 where
  ssh_options_host ssh_options_port ssh_options_port_str ssh_options_fd : SshOptionsE
  ssh_options_bindaddr ssh_options_user ssh_options_ssh_dir ssh_options_knownhosts : SshOptionsE
  ssh_options_global_knownhosts ssh_options_add_identity ssh_options_timeout : SshOptionsE
  ssh_options_timeout_usec ssh_options_log_verbosity ssh_options_log_verbosity_str : SshOptionsE
  ssh_options_ciphers_c_s ssh_options_ciphers_s_c ssh_options_key_exchange : SshOptionsE
  ssh_options_hmac_c_s ssh_options_hmac_s_c ssh_options_hostkeys : SshOptionsE
  ssh_options_publickey_accepted_types ssh_options_compression_c_s : SshOptionsE
  ssh_options_compression_s_c ssh_options_compression ssh_options_compression_level : SshOptionsE
  ssh_options_stricthostkeycheck ssh_options_proxycommand : SshOptionsE
  ssh_options_gssapi_server_identity ssh_options_gssapi_client_identity : SshOptionsE
  ssh_options_gssapi_delegate_credentials ssh_options_password_auth : SshOptionsE
  ssh_options_pubkey_auth ssh_options_kbdint_auth ssh_options_gssapi_auth : SshOptionsE
  ssh_options_nodelay ssh_options_process_config ssh_options_rekey_data : SshOptionsE
  ssh_options_rekey_time ssh_options_rsa_min_size ssh_options_identity_agent : SshOptionsE

-- The types of options, by the names that `using` gives them.
pub data SessionOption : Type 0 where
  host port port_str fd binaddr user ssh_dir known_hosts global_known_hosts : SessionOption
  add_identity timeout timeout_usec log_verbosity log_verbosity_str ciphser_c_s : SessionOption
  ciphser_s_c key_exchange hmac_c_s hmac_s_c host_keys public_key_accepted_types : SessionOption
  compression_c_s compression_s_c compression compression_level stricthostkeycheck : SessionOption
  proxycommand gssapi_server_identity gssapi_client_identity : SessionOption
  gssapi_delegate_credential password_auth pubkey_auth kbdint_auth gssapi_auth : SessionOption
  nodelay process_config rekey_data rekey_time rsa_min_size identity_agent : SessionOption

-- `option()`
unfoldable pub option : SessionOption → SshOptionsE
option host = ssh_options_host
option port = ssh_options_port
option port_str = ssh_options_port_str
option fd = ssh_options_fd
option binaddr = ssh_options_bindaddr
option user = ssh_options_user
option ssh_dir = ssh_options_ssh_dir
option known_hosts = ssh_options_knownhosts
option global_known_hosts = ssh_options_global_knownhosts
option add_identity = ssh_options_add_identity
option timeout = ssh_options_timeout
option timeout_usec = ssh_options_timeout_usec
option log_verbosity = ssh_options_log_verbosity
option log_verbosity_str = ssh_options_log_verbosity_str
option ciphser_c_s = ssh_options_ciphers_c_s
option ciphser_s_c = ssh_options_ciphers_s_c
option key_exchange = ssh_options_key_exchange
option hmac_c_s = ssh_options_hmac_c_s
option hmac_s_c = ssh_options_hmac_s_c
option host_keys = ssh_options_hostkeys
option public_key_accepted_types = ssh_options_publickey_accepted_types
option compression_c_s = ssh_options_compression_c_s
option compression_s_c = ssh_options_compression_s_c
option compression = ssh_options_compression
option compression_level = ssh_options_compression_level
option stricthostkeycheck = ssh_options_stricthostkeycheck
option proxycommand = ssh_options_proxycommand
option gssapi_server_identity = ssh_options_gssapi_server_identity
option gssapi_client_identity = ssh_options_gssapi_client_identity
option gssapi_delegate_credential = ssh_options_gssapi_delegate_credentials
option password_auth = ssh_options_password_auth
option pubkey_auth = ssh_options_pubkey_auth
option kbdint_auth = ssh_options_kbdint_auth
option gssapi_auth = ssh_options_gssapi_auth
option nodelay = ssh_options_nodelay
option process_config = ssh_options_process_config
option rekey_data = ssh_options_rekey_data
option rekey_time = ssh_options_rekey_time
option rsa_min_size = ssh_options_rsa_min_size
option identity_agent = ssh_options_identity_agent

-- The class template.
unfoldable pub template_of : SessionOption → Template
template_of host = cstring_option
template_of port = unsigned_int_option
template_of port_str = cstring_option
template_of fd = int_option
template_of binaddr = cstring_option
template_of user = cstring_option
template_of ssh_dir = cstring_option
template_of known_hosts = cstring_option
template_of global_known_hosts = cstring_option
template_of add_identity = cstring_option
template_of timeout = long_option
template_of timeout_usec = long_option
template_of log_verbosity = int_option
template_of log_verbosity_str = cstring_option
template_of ciphser_c_s = cstring_option
template_of ciphser_s_c = cstring_option
template_of key_exchange = cstring_option
template_of hmac_c_s = cstring_option
template_of hmac_s_c = cstring_option
template_of host_keys = cstring_option
template_of public_key_accepted_types = cstring_option
template_of compression_c_s = cstring_option
template_of compression_s_c = cstring_option
template_of compression = cstring_option
template_of compression_level = int_option
template_of stricthostkeycheck = bool_option
template_of proxycommand = cstring_option
template_of gssapi_server_identity = cstring_option
template_of gssapi_client_identity = cstring_option
template_of gssapi_delegate_credential = bool_option
template_of password_auth = bool_option
template_of pubkey_auth = bool_option
template_of kbdint_auth = bool_option
template_of gssapi_auth = bool_option
template_of nodelay = bool_option
template_of process_config = bool_option
template_of rekey_data = uint64_option
template_of rekey_time = uint32_option
template_of rsa_min_size = int_option
template_of identity_agent = cstring_option
