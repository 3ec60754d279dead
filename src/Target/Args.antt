-- ===== src/Target/Args.antt =====
-- `parse_afs_args` of src/dm_afs.c. A C string is the list of its bytes before the `NUL`; a buffer of
-- `size` bytes that `strncpy` fills with at most `size - 1` after `memset` holds a string of that length
-- at most. `-EINVAL` is `none`. The kernel's `kstrtou8`, in base 10, is a parameter.
pub mod Laws
use artifice.Base.{
  ℕ, ◌-◌, Bool, true, false, ◌&&◌, not, ◌==◌, if◌then◌else◌, Option, none, some, List, [], ◌∷◌,
  take,
}

-- `TYPE_CREATE`, `TYPE_MOUNT`, `TYPE_SHADOW`
abbrev pub type_create : ℕ
type_create = 0

abbrev pub type_mount : ℕ
type_mount = 1

abbrev pub type_shadow : ℕ
type_shadow = 2

-- `PASSPHRASE_SZ`, `PASSIVE_DEV_SZ`, `ENTROPY_DIR_SZ`
abbrev pub passphrase_size : ℕ
passphrase_size = 64

abbrev pub passive_dev_size : ℕ
passive_dev_size = 32

abbrev pub entropy_dir_size : ℕ
entropy_dir_size = 64

-- `struct afs_args`
pub record Args : Type 0 where
  pub passphrase : List ℕ
  pub shadow_passphrase : List ℕ
  pub passive_dev : List ℕ
  pub entropy_dir : List ℕ
  pub instance_type : ℕ

-- `"--entropy"` and `"--shadow_passphrase"`
abbrev pub entropy_option : List ℕ
entropy_option = 45 ∷ 45 ∷ 101 ∷ 110 ∷ 116 ∷ 114 ∷ 111 ∷ 112 ∷ 121 ∷ []

abbrev pub shadow_option : List ℕ
shadow_option =
    45 ∷ 45 ∷ 115 ∷ 104 ∷ 97 ∷ 100 ∷ 111 ∷ 119 ∷ 95 ∷ 112 ∷ 97 ∷ 115 ∷ 115 ∷ 112 ∷ 104 ∷ 114 ∷ 97
    ∷ 115 ∷ 101 ∷ []

-- `!strcmp`
unfoldable pub same_text : List ℕ → List ℕ → Bool
same_text [] [] = true
same_text [] (y ∷ ys) = false
same_text (x ∷ xs) [] = false
same_text (x ∷ xs) (y ∷ ys) = (x == y) && same_text xs ys

-- The first byte of the buffer is 0.
unfoldable pub is_empty : List ℕ → Bool
is_empty [] = true
is_empty (x ∷ xs) = false

-- The loop over the optional arguments. One that stands last has no value, or is unknown.
unfoldable pub parse_options : Args → List (List ℕ) → Option Args
parse_options args [] = some args
parse_options args (name ∷ []) = none
parse_options args (name ∷ value ∷ argv) =
    let with_entropy =
      parse_options (record args { entropy_dir = take (entropy_dir_size - 1) value }) argv in
    let with_shadow =
      parse_options (record args { shadow_passphrase = take (passphrase_size - 1) value }) argv in
    if same_text name entropy_option
    then with_entropy
    else if same_text name shadow_option
    then with_shadow
    else none

-- The `switch` over the type of the instance.
unfoldable pub check_type : Args → Option Args
check_type args =
    if args.instance_type == type_create
    then if not (is_empty args.entropy_dir) && is_empty args.shadow_passphrase
      then some args
      else none
    else if args.instance_type == type_mount
    then if is_empty args.entropy_dir && is_empty args.shadow_passphrase then some args else none
    else if args.instance_type == type_shadow
    then if not (is_empty args.entropy_dir) && not (is_empty args.shadow_passphrase)
      then some args
      else none
    else none

-- The arguments after those that are required.
unfoldable pub parse_rest : Args → List (List ℕ) → Option Args
parse_rest args argv = elim (parse_options args argv) [
  | none ↦ none
  | some args' ↦ check_type args'
]

-- `parse_afs_args`
unfoldable pub parse_afs_args : (List ℕ → Option ℕ) → List (List ℕ) → Option Args
parse_afs_args kstrtou8 [] = none
parse_afs_args kstrtou8 (type ∷ []) = none
parse_afs_args kstrtou8 (type ∷ passphrase ∷ []) = none
parse_afs_args kstrtou8 (type ∷ passphrase ∷ disk ∷ argv) = elim (kstrtou8 type) [
  | none ↦ none
  | some instance_type ↦
      parse_rest
        (record {
          passphrase = take (passphrase_size - 1) passphrase;
          shadow_passphrase = [];
          passive_dev = take (passive_dev_size - 1) disk;
          entropy_dir = [];
          instance_type = instance_type;
        })
        argv
]
