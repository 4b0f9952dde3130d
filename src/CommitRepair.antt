-- ===== src/CommitRepair.antt =====
-- Repair of commits without metadata (internal/commitrepair/repair.go and cursor.go). The context,
-- the store, the enricher and the backfill queue are the caller's, over a `World` that each of them
-- may change; a nil collaborator is `none`. Timestamps are opaque numbers.
pub mod Cursors
pub mod Bounds
pub mod Run
use conbench.Base.{
  ℕ, ◌+◌, ◌≤◌, ◌≡◌, ◌%◌, ◌^◌, min, Bool, true, false, not, ◌&&◌, ◌||◌, Option, none, some, List, [],
  ◌∷◌, ◌++◌, String, str_eq, arith, ltb, leb, ◌==◌, if◌then◌else◌, length, take, get_or,
}
use conbench.Base.Int.{ℤ, pos, negsuc, pos_part, leb_ℤ, sub_ℕ}
use conbench.Base.Results.{Result, ok, err, ◌>>=◌, ◌>>◌, refuse_if}
use conbench.CommitRepair.Cursors.{
  Cursor, RepairError, CursorCodec, encode_cursor, validate_cursor, limit_not_positive,
  limit_too_large, cursor_mismatch, repairer_missing, store_missing, enricher_missing, cancelled,
  failed_call,
}

abbrev pub max_failure_samples : ℕ
max_failure_samples = 10

abbrev pub max_int32 : ℕ
max_int32 = 2147483647

pub record Candidate : Type 0 where
  pub id : String
  pub repository : String
  pub sha : String

pub record Info : Type 0 where
  pub parent : Option String
  pub message : String
  pub author_name : String
  pub author_login : Option String
  pub author_avatar : Option String
  pub timestamp : Option ℕ
  pub branch : Option String
  pub fork_point_sha : Option String

pub record BackfillJob : Type 0 where
  pub repo_url : String
  pub spec : String
  pub default_branch : String
  pub until : ℕ

pub record CandidateParams : Type 0 where
  pub repository : Option String
  pub limit_plus_one : ℤ
  pub after_repository : Option String
  pub after_sha : Option String

pub record UpdateParams : Type 0 where
  pub id : String
  pub parent : Option String
  pub message : String
  pub author_name : String
  pub author_login : Option String
  pub author_avatar : Option String
  pub timestamp : ℕ
  pub branch : Option String
  pub fork_point_sha : Option String

-- What errors.Is and errors.As find in an error of the enricher, and its text.
pub record EnrichError : Type 0 where
  pub unsupported_repository : Bool
  pub status_code : Option ℕ
  pub message : String

pub record Enrichment : Type 0 where
  pub info : Option Info
  pub job : Option BackfillJob
  pub error : Option EnrichError

pub record CommitStore (World : Type 0) : Type 0 where
  pub select_candidates : CandidateParams → World → Result String (List Candidate)
  pub update_unknown_commit : UpdateParams → World → Result String ℕ × World

pub record Repairer (World : Type 0) : Type 0 where
  pub store : Option (CommitStore World)
  -- By commit and repository.
  pub enricher : Option (String → String → World → Enrichment × World)
  pub backfill : Option (BackfillJob → World → World)

pub record RepairOptions : Type 0 where
  pub repository : Option String
  pub limit : ℤ
  pub cursor : Option Cursor
  pub dry_run : Bool
  pub use_backfill : Bool

pub record Failure : Type 0 where
  pub repository : String
  pub sha : String
  pub error : String

pub record Summary : Type 0 where
  pub scanned : ℕ
  pub repaired : ℕ
  pub would_repair : ℕ
  pub unsupported_repository : ℕ
  pub failed : ℕ
  pub auth_or_quota_failures : ℕ
  pub already_repaired : ℕ
  pub backfill_enqueued : ℕ
  pub would_backfill : ℕ
  pub next_cursor : Option String
  pub failures : List Failure

abbrev pub empty_summary : Summary
empty_summary = record {
  scanned = 0;
  repaired = 0;
  would_repair = 0;
  unsupported_repository = 0;
  failed = 0;
  auth_or_quota_failures = 0;
  already_repaired = 0;
  backfill_enqueued = 0;
  would_backfill = 0;
  next_cursor = none;
  failures = [];
}

-- int32(n) for an n that is not negative.
unfoldable pub int32 : ℕ → ℤ
int32 n = let r = n % 2 ^ 32 in if ltb r (2 ^ 31) then pos r else sub_ℕ r (2 ^ 32)

abbrev pub update_params : String → Info → ℕ → UpdateParams
update_params id info t = record {
  id = id;
  parent = info.parent;
  message = info.message;
  author_name = info.author_name;
  author_login = info.author_login;
  author_avatar = info.author_avatar;
  timestamp = t;
  branch = info.branch;
  fork_point_sha = info.fork_point_sha;
}

-- The metadata and its timestamp, where all that a repair needs is there.
abbrev pub complete_info : Option Info → Option (Info × ℕ)
complete_info none = none
complete_info (some info) = by_fields info.timestamp info.fork_point_sha
  where
    by_fields : Option ℕ → Option String → Option (Info × ℕ)
    by_fields (some t) (some sha) = some (info, t)
    by_fields _ _ = none

abbrev pub after : Option Cursor → (Cursor → String) → Option String
after none field = none
after (some c) field = some (field c)

abbrev pub candidate_params : RepairOptions → CandidateParams
candidate_params opts = record {
  repository = opts.repository;
  limit_plus_one = int32 (pos_part opts.limit + 1);
  after_repository = after opts.cursor (λ c. c.repository);
  after_sha = after opts.cursor (λ c. c.sha);
}

abbrev pub check_cursor : Option String → Option Cursor → Result RepairError (Unit {0})
check_cursor filter none = ok tt
check_cursor none (some c) = validate_cursor c
check_cursor (some repository) (some c) =
    validate_cursor c
    >> refuse_if (not (str_eq repository c.repository)) (cursor_mismatch c.repository repository)

unfoldable pub check_options : RepairOptions → Result RepairError (Unit {0})
check_options opts =
    refuse_if (leb_ℤ opts.limit (pos 0)) limit_not_positive
    >> (refuse_if (leb_ℤ (pos max_int32) opts.limit) limit_too_large
        >> check_cursor opts.repository opts.cursor)
