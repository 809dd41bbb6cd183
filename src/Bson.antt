-- ===== src/Bson.antt =====
-- The values of the `bson` crate, with the constructors that the match in
-- mongodb-cwal-rs-master/src/wire_protocol/operations.rs names. A document, which the crate keeps as a
-- map in the order of insertion, is the list of its fields; a float, a time and an object id are numbers.
use old_mongo_rust_driver.Prelude.{ℕ, Bool, Option, none, some, List, if◌then◌else◌}
use old_mongo_rust_driver.Prelude.Int.{ℤ}
use old_mongo_rust_driver.Prelude.Text.{Text, text_eq}

mutual
  pub data Bson : Type 0 where
    floating_point object_id : ℕ → Bson
    string javascript_code symbol : Text → Bson
    array : Values → Bson
    document : Document → Bson
    boolean : Bool → Bson
    null : Bson
    reg_exp : Text → Text → Bson
    javascript_code_with_scope : Text → Document → Bson
    i32 i64 time_stamp utc_datetime : ℤ → Bson
    binary : ℕ → List ℕ → Bson

  pub data Values : Type 0 where
    nil : Values
    cons : Bson → Values → Values

  pub data Document : Type 0 where
    end : Document
    field : Text → Bson → Document → Document

-- `Document::get`
unfoldable pub get : Text → Document → Option Bson
get k end = none
get k (field j v rest) = if text_eq j k then some v else get k rest
