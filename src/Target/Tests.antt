-- ===== src/Target/Tests.antt =====
-- The target at small inputs.
use artifice.Base.{
  ℕ, ◌+◌, ◌%◌, ◌<◌, ◌≡◌, ◌⊎◌, refl, arith, inl, true, Option, none, some, List, [], ◌∷◌,
}
use artifice.Target.Args.{
  Args, parse_afs_args, parse_rest, parse_options, check_type, same_text, is_empty,
}
use artifice.Target.Args.Laws.{
  Fits, IsMeaningful, IsAccepted, command_line, parse_afs_args-IsAccepted,
  parse_afs_args-command_line,
}
use artifice.Target.Request.{
  MapRequest, queued, op_read, op_write, accepted_sectors, afs_map, dispatch, request_for, Covers,
  afs_map-Covers,
}

-- A `kstrtou8` that reads one digit.
digit : List ℕ → Option ℕ
digit (x ∷ []) = some (x % 48)
digit xs = none

abbrev create : Args
create = record {
  passphrase = 112 ∷ 119 ∷ [];
  shadow_passphrase = [];
  passive_dev = 115 ∷ 100 ∷ 97 ∷ [];
  entropy_dir = 47 ∷ 101 ∷ [];
  instance_type = 0;
}

create-Fits : Fits create
create-Fits = omega arith

create-IsMeaningful : IsMeaningful create
unfolding is_empty
create-IsMeaningful = inl (refl, refl, refl)

parses : parse_afs_args digit (command_line (48 ∷ []) create) ≡ some create
unfolding digit parse_afs_args parse_rest parse_options check_type same_text is_empty
parses = refl

reads_zero : digit (48 ∷ []) ≡ some 0
unfolding digit
reads_zero = refl

parse_afs_args-IsAccepted_example : IsAccepted create
parse_afs_args-IsAccepted_example =
    parse_afs_args-IsAccepted digit (command_line (48 ∷ []) create) create parses

parse_afs_args-command_line_example :
    parse_afs_args digit (command_line (48 ∷ []) create) ≡ some create
parse_afs_args-command_line_example =
    parse_afs_args-command_line digit (48 ∷ []) create create-Fits create-IsMeaningful reads_zero

afs_map-Covers_example :
    (request : MapRequest) × (afs_map true op_read 13 8 ≡ (accepted_sectors 13 8, queued request))
    × (afs_map true op_write 13 8 ≡ (accepted_sectors 13 8, queued request))
    × (0 < accepted_sectors 13 8)
    × Covers request 13 (accepted_sectors 13 8)
    × ((accepted_sectors 13 8 ≡ 8)
        ⊎ (accepted_sectors 13 8 < 8) × ((13 + accepted_sectors 13 8) % 8 ≡ 0))
afs_map-Covers_example = afs_map-Covers 13 8 (omega arith) (omega arith)

three_sectors :
    afs_map true op_read 13 8
    ≡ (3, queued (record { block = 1; sector_offset = 5; request_size = 1536 }))
unfolding afs_map accepted_sectors dispatch request_for
three_sectors = refl
