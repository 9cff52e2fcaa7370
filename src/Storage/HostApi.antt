-- ===== src/Storage/HostApi.antt =====
-- DfcTextHostApi of dfc_text_codec_plugin.h: the functions of lib/core that a text plugin calls in the
-- application, through a table of pointers. dfc_credential_storage.c fills the table, and
-- text_plugin/dfc_text_codec.c keeps a pointer to it and defines each function by a call through it.
use dfc_flipper.Base.{Option, none, some, Bool, if◌then◌else◌, ◌≡◌, refl}
use dfc_flipper.Storage.Codec.{PluginSystem, open_codec, closed}

-- The fields of the table, which have the names of the functions.
pub data HostFunction : Type 0 where
  credential_app_auth_commands credential_clear credential_key credential_key_const
        credential_key_in_set :
      HostFunction
  credential_key_in_set_const credential_key_length credential_key_sets_resize
        credential_key_version_in_set credential_keys_resize :
      HostFunction
  credential_picc_auth_commands credential_reset_application der_decode der_status_name
        der_validate_model :
      HostFunction
  file_data file_data_const file_resize : HostFunction

module _ (Arguments Result : HostFunction → Type 0) where
  -- A table: for each field, a function from its arguments to its result.
  abbrev pub HostApi : Type 0
  HostApi = (name : HostFunction) → Arguments name → Result name

  -- The application's table; `lib` is lib/core.
  unfoldable pub text_host_api : HostApi → HostApi
  text_host_api lib credential_app_auth_commands arguments =
      lib credential_app_auth_commands arguments
  text_host_api lib credential_clear arguments = lib credential_clear arguments
  text_host_api lib credential_key arguments = lib credential_key arguments
  text_host_api lib credential_key_const arguments = lib credential_key_const arguments
  text_host_api lib credential_key_in_set arguments = lib credential_key_in_set arguments
  text_host_api lib credential_key_in_set_const arguments =
      lib credential_key_in_set_const arguments
  text_host_api lib credential_key_length arguments = lib credential_key_length arguments
  text_host_api lib credential_key_sets_resize arguments = lib credential_key_sets_resize arguments
  text_host_api lib credential_key_version_in_set arguments =
      lib credential_key_version_in_set arguments
  text_host_api lib credential_keys_resize arguments = lib credential_keys_resize arguments
  text_host_api lib credential_picc_auth_commands arguments =
      lib credential_picc_auth_commands arguments
  text_host_api lib credential_reset_application arguments =
      lib credential_reset_application arguments
  text_host_api lib der_decode arguments = lib der_decode arguments
  text_host_api lib der_status_name arguments = lib der_status_name arguments
  text_host_api lib der_validate_model arguments = lib der_validate_model arguments
  text_host_api lib file_data arguments = lib file_data arguments
  text_host_api lib file_data_const arguments = lib file_data_const arguments
  text_host_api lib file_resize arguments = lib file_resize arguments

  -- `bind` of the plugin: `host_api` before and after, NULL until the first call.
  unfoldable pub bind : HostApi → Option HostApi → Option HostApi
  bind api host_api = some api

  -- A function of the plugin, which hands its arguments on to that field of the table. none is a call
  -- through NULL.
  unfoldable pub forward :
      Option HostApi → (name : HostFunction) → Arguments name → Option (Result name)
  forward none name arguments = none
  forward (some host_api) name arguments = some (host_api name arguments)

  -- `host_api` of a plugin that has just been loaded, after `dfc_text_codec_open`: its last step binds
  -- the table, and no other path does.
  unfoldable pub bound : HostApi → PluginSystem → Bool → Option HostApi
  bound lib system for_write =
      let (codec, ok, es) = open_codec system closed for_write in
      if ok then bind (text_host_api lib) none else none

  -- A call through the table runs the function of its name.
  pub forward-bind :
      (lib : HostApi) (name : HostFunction) (arguments : Arguments name)
      → forward (bind (text_host_api lib) none) name arguments ≡ some (lib name arguments)
  unfolding forward bind text_host_api
  forward-bind lib credential_app_auth_commands arguments = refl
  forward-bind lib credential_clear arguments = refl
  forward-bind lib credential_key arguments = refl
  forward-bind lib credential_key_const arguments = refl
  forward-bind lib credential_key_in_set arguments = refl
  forward-bind lib credential_key_in_set_const arguments = refl
  forward-bind lib credential_key_length arguments = refl
  forward-bind lib credential_key_sets_resize arguments = refl
  forward-bind lib credential_key_version_in_set arguments = refl
  forward-bind lib credential_keys_resize arguments = refl
  forward-bind lib credential_picc_auth_commands arguments = refl
  forward-bind lib credential_reset_application arguments = refl
  forward-bind lib der_decode arguments = refl
  forward-bind lib der_status_name arguments = refl
  forward-bind lib der_validate_model arguments = refl
  forward-bind lib file_data arguments = refl
  forward-bind lib file_data_const arguments = refl
  forward-bind lib file_resize arguments = refl
