-- ===== src/Service/UndoStore/Tests.antt =====
-- service/notes-undo-store.ts: the theorems on a concrete store, and some runs.
use nook_bridge.Common.{
  ◌≡◌, ◌≢◌, ◌⊎◌, refl, Bool, true, false, none, some, List, [], ◌∷◌, Text, codes, text_eq, arith,
}
use nook_bridge.Common.Js.{JsValue, object, string, number, nat, field, end, property, undefined}
use nook_bridge.Service.Operator.Context.{is_operation_handle}
use nook_bridge.Service.UndoStore.Types.{
  OperationState, Entry, prepared, committing, unresolved, edit, Limits, OperationStoreFs, Codec,
  Randomness, Store, ok, entry_of, put, drop, total_bytes, same_state, is_expirable,
}
use nook_bridge.Service.UndoStore.{
  persist, remove, erase, write_frame, expire_each, expire, parse_kind,
}
use nook_bridge.Service.UndoStore.Records.{Distinct}
use nook_bridge.Service.UndoStore.Recovery.{
  is_temp_name, parse_state, decode, has_repeated, read_records, remove_all, settle_each,
  settle_and_expire, clean_up, check_again, read_in, open_store,
}
use nook_bridge.Service.UndoStore.Calls.{StoreCall, inserting, getting, moving, closing}
use nook_bridge.Service.UndoStore.Life.{
  Fits, Life, state_of, WritesAt, perform_all, records_live_by_the_table, perform_all-Fits,
}
use nook_bridge.Service.UndoStore.Opened.{open_store_settles}

abbrev handle : Text
handle = codes "op_abababababababababababababababababababababababababababababababab"

abbrev temp_name : Text
temp_name = codes "tmp_cdcdcdcdcdcdcdcdcdcdcdcdcdcdcdcdcdcdcdcdcdcdcdcdcdcdcdcdcdcdcdcd"

-- A disk with one record, which is in doubt, and one temporary file.
abbrev files : OperationStoreFs (Unit {0}) (Unit {0})
files = record {
  list = λ d limit. some (handle ∷ temp_name ∷ []);
  read = λ d name limit. some tt;
  write_exclusive = λ d name frame. (d, true);
  sync_file = λ d name. (d, true);
  rename = λ d from_name to_name. (d, true);
  sync_directory = λ d. (d, true);
  remove = λ d name. (d, true);
}

abbrev doubtful_value : JsValue
doubtful_value = object (
    field (codes "handle") (string handle) (
      field (codes "kind") (string (codes "edit")) (
        field (codes "state") (string (codes "committing")) (
          field (codes "payload") (string (codes "{}")) (
            field (codes "createdAt") (number (nat 5))
              (field (codes "expiresAt") (number (nat 10)) end))))))

abbrev frames : Codec (Unit {0})
frames = record {
  payload_bytes = λ p. 2;
  plain_bytes = λ r. 100;
  encode = λ nonce r. tt;
  frame_bytes = λ f. 132;
  open_frame = λ h f. some doubtful_value;
  payload_owner = λ p. none;
}

abbrev limits : Limits
limits = record { max_records = 2; max_record_bytes = 1000; max_total_bytes = 1000 }

abbrev randomness : Randomness
randomness = record { nonce = 7; temp = temp_name }

abbrev settled_store : Store (Unit {0})
settled_store = record {
  records =
      (record {
        operation = record {
          handle = handle;
          kind = edit;
          state = unresolved;
          payload = codes "{}";
          created_at = 5;
          expires_at = 10;
        };
        bytes = 132;
      })
      ∷ [];
  is_closed = false;
  disk = tt;
}

-- The record is past its time, and stays, as it is unresolved.
opens_unresolved :
    open_store files frames limits (some 20) (λ h. randomness) tt ≡ (settled_store, ok tt)
unfolding open_store read_in check_again clean_up settle_and_expire read_records remove_all
    settle_each expire expire_each persist remove erase write_frame decode parse_kind parse_state
    has_repeated is_temp_name is_operation_handle text_eq property entry_of put drop total_bytes
    same_state is_expirable
opens_unresolved = refl

open_store_settles_example :
    Distinct settled_store.records
    × Fits limits settled_store.records
    × ((h : Text) → state_of h settled_store.records ≢ some committing)
open_store_settles_example =
    open_store_settles files frames limits (some 20) (λ h. randomness) tt settled_store
      opens_unresolved

abbrev empty_store : Store (Unit {0})
empty_store = record { records = []; is_closed = false; disk = tt }

-- A record is entered, its commit begins, and the store is closed.
abbrev calls : List StoreCall
calls =
    inserting (some 1) (some 1) randomness handle (string (codes "edit")) (string (codes "{}"))
      (number (nat 50))
    ∷ moving (some 2) randomness handle prepared committing undefined none
    ∷ closing
    ∷ []

-- A store with one prepared record, whose commit begins.
abbrev prepared_entry : Entry
prepared_entry = record {
  operation = record {
    handle = handle;
    kind = edit;
    state = prepared;
    created_at = 1;
    expires_at = 50;
    payload = codes "{}";
  };
  bytes = 40;
}

abbrev one_record : Store (Unit {0})
one_record = record { records = prepared_entry ∷ []; is_closed = false; disk = tt }

abbrev commit_calls : List StoreCall
commit_calls =
    moving (some 2) randomness handle prepared committing undefined none
    ∷ getting (some 3) handle none
    ∷ []

abbrev is_committing : OperationState → Bool
is_committing state = same_state state committing

one_record-Distinct : Distinct one_record.records
unfolding entry_of
one_record-Distinct = (refl, tt)

never_prepared : is_committing prepared ≡ false
unfolding same_state
never_prepared = refl

asks_committing : WritesAt handle is_committing committing handle
unfolding same_state
asks_committing = λ here. refl

records_live_by_the_table_example :
    (((perform_all files frames limits commit_calls one_record).is_closed ≡ true)
      × ((perform_all files frames limits commit_calls one_record).records ≡ []))
    ⊎ Life is_committing
        (entry_of handle one_record.records)
        (entry_of handle (perform_all files frames limits commit_calls one_record).records)
records_live_by_the_table_example =
    records_live_by_the_table files frames limits handle is_committing commit_calls one_record
      never_prepared (asks_committing, (tt, tt)) one_record-Distinct

empty_store-Fits : Fits limits empty_store.records
unfolding total_bytes
empty_store-Fits = record { few = omega arith; small = omega arith }

perform_all-Fits_example :
    Distinct (perform_all files frames limits calls empty_store).records
    × Fits limits (perform_all files frames limits calls empty_store).records
perform_all-Fits_example =
    perform_all-Fits files frames limits calls empty_store tt empty_store-Fits
