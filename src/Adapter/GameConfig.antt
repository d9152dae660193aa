-- ===== src/Adapter/GameConfig.antt =====
-- repository/firestore/game_config_repo.go. What Firestore returns is a parameter.
use Prim.Native.String.{◌++◌}
use overload_party_scenario.Common.{String}
use overload_party_scenario.Common.Int.{ℤ}
use overload_party_scenario.Errors.{
  Error, Result, err, wrap, sentinel, port, PortError, rewrite_error,
}

-- A read of a document: none by that key, another failure, or a snapshot with what DataTo makes of its
-- field `value`.
pub data FirestoreRead : Type 0 where
  document_not_found : FirestoreRead
  get_failed : Error → FirestoreRead
  snapshot : Result ℤ → FirestoreRead

-- port.GameConfigRepo
pub record GameConfigRepo : Type 0 where
  pub get_int64 : String → Result ℤ

-- `quote` is the verb %q, `get` is a read of the collection.
module _ (quote : String → String) (get : String → FirestoreRead) where
  abbrev pub result_of : String → FirestoreRead → Result ℤ
  result_of key document_not_found =
      err (wrap ("game config " ++ quote key) (sentinel (port PortError.not_found)))
  result_of key (get_failed e) = err (wrap ("get game config " ++ quote key) e)
  result_of key (snapshot value) = rewrite_error (wrap ("parse game config " ++ quote key)) value

  abbrev pub get_int64 : String → Result ℤ
  get_int64 key = result_of key (get key)

  abbrev pub game_config_repository : GameConfigRepo
  game_config_repository = record { get_int64 = get_int64 }
