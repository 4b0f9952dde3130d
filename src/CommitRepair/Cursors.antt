-- ===== src/CommitRepair/Cursors.antt =====
-- The cursor of a repair (internal/commitrepair/cursor.go) and the errors that a repair reports.
use conbench.Base.{String, str_eq}
use conbench.Base.Results.{Result, ok, ◌>>=◌, ◌>>◌, refuse_if}

pub record Cursor : Type 0 where
  pub repository : String
  pub sha : String

pub data RepairError : Type 0 where
  limit_not_positive : RepairError
  limit_too_large : RepairError
  cursor_repository_missing : RepairError
  cursor_sha_missing : RepairError
  -- The cursor's repository and the filter.
  cursor_mismatch : String → String → RepairError
  repairer_missing : RepairError
  store_missing : RepairError
  enricher_missing : RepairError
  cancelled : String → RepairError
  -- A collaborator's or a codec's own error.
  failed_call : String → RepairError

-- encoding/json and encoding/base64, as the cursor uses them.
pub record CursorCodec : Type 0 where
  pub marshal : Cursor → Result RepairError String
  pub unmarshal : String → Result RepairError Cursor
  pub encode_to_string : String → String
  pub decode_string : String → Result RepairError String

unfoldable pub validate_cursor : Cursor → Result RepairError (Unit {0})
validate_cursor c =
    refuse_if (str_eq c.repository "") cursor_repository_missing
    >> refuse_if (str_eq c.sha "") cursor_sha_missing

module _ (codec : CursorCodec) where
  unfoldable pub encode_cursor : Cursor → Result RepairError String
  encode_cursor c =
      validate_cursor c >> (codec.marshal c >>= λ data_. ok (codec.encode_to_string data_))

  unfoldable pub decode_cursor : String → Result RepairError Cursor
  decode_cursor encoded = codec.decode_string encoded >>= λ data_.
      codec.unmarshal data_ >>= λ c. validate_cursor c >> ok c
