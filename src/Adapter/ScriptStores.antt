-- ===== src/Adapter/ScriptStores.antt =====
-- adapter/gcs/script_store.go and adapter/local/script_store.go. What Cloud Storage and the file
-- system hold is a parameter.
use Prim.Native.String.{◌++◌}
use overload_party_scenario.Common.{String}
use overload_party_scenario.Errors.{Error, Result, ok, err, wrapf, sentinel, port, PortError}
use overload_party_scenario.Port.{ScriptStore}

-- What Cloud Storage does with a read of an object: no object, a failure to open it, a failure
-- while its body is read, or the body.
pub data GcsRead : Type 0 where
  object_not_exist : GcsRead
  reader_failed body_failed : Error → GcsRead
  body : String → GcsRead

-- What os.ReadFile returns: the text, an error that is os.ErrNotExist, or another error.
pub data FileRead : Type 0 where
  contents : String → FileRead
  not_exist : FileRead
  failed : Error → FileRead

-- `quote` is the verb %q of package fmt, `render` is `Error()`.
module _ (quote : String → String) (render : Error → String) where
  -- fmt.Errorf("%w: … (<outer>=%q <inner>=%q)…", sentinel, …), the text behind the sentinel in parts.
  abbrev pub annotated : PortError → String → String → String → String → String → String → Error
  annotated e before outer outer_value inner inner_value after = wrapf "" (sentinel (port e)) (
      before
      ++ (outer
          ++ ("="
              ++ (quote outer_value ++ (" " ++ (inner ++ ("=" ++ (quote inner_value ++ after))))))))

  abbrev pub gcs_error : PortError → String → String → String → String → Error
  gcs_error e before bucket_name key after =
      annotated e before "bucket" bucket_name "object" key after

  abbrev pub gcs_result : String → String → GcsRead → Result String
  gcs_result bucket_name key object_not_exist =
      err (gcs_error PortError.script_not_found ": " bucket_name key "")
  gcs_result bucket_name key (reader_failed e) =
      err (gcs_error PortError.script_infra ": gcs read (" bucket_name key ("): " ++ render e))
  gcs_result bucket_name key (body_failed e) =
      err (gcs_error PortError.script_infra ": gcs read body (" bucket_name key ("): " ++ render e))
  gcs_result bucket_name key (body text) = ok text

  -- ReadScript of the Cloud Storage store: `fetch bucket object` is the service.
  pub gcs_read_script : (String → String → GcsRead) → String → String → Result String
  gcs_read_script fetch bucket_name key = gcs_result bucket_name key (fetch bucket_name key)

  abbrev pub local_result : String → String → FileRead → Result String
  local_result root full_path (contents text) = ok text
  local_result root full_path not_exist =
      err (annotated PortError.script_not_found ": local " "root" root "path" full_path "")
  local_result root full_path (failed e) = err (
      annotated PortError.script_infra ": local read (" "root" root "path" full_path
        ("): " ++ render e))

  -- ReadScript of the local store: `join` is filepath.Join, `read_file` is os.ReadFile.
  pub local_read_script :
      (String → String → String) → (String → FileRead) → String → String → Result String
  local_read_script join read_file root key =
      let full_path = join root key in local_result root full_path (read_file full_path)

  abbrev pub gcs_script_store : (String → String → GcsRead) → String → ScriptStore
  gcs_script_store fetch bucket_name = record { read_script = gcs_read_script fetch bucket_name }

  abbrev pub local_script_store :
      (String → String → String) → (String → FileRead) → String → ScriptStore
  local_script_store join read_file root = record {
    read_script = local_read_script join read_file root;
  }
