-- ===== src/Target/Args/Laws.antt =====
-- `parse_afs_args` of src/dm_afs.c: what it accepts, and command lines for it.
use artifice.Base.{
  ℕ, suc, ◌<◌, ◌≡◌, ◌⊎◌, refl, ap, arith, inl, inr, true, false, Bool-cases, ◌&&◌, not, ◌==◌,
  Option, none, some, List, [], ◌∷◌, ◌++◌, take, length, length-take, take_all,
}
use artifice.Target.Args.{
  Args, entropy_option, shadow_option, same_text, is_empty, parse_options, check_type, parse_rest,
  parse_afs_args,
}

-- The strings and their `NUL`s fit the buffers.
pub record Fits (args : Args) : Type 0 where
  pub passphrase_fits : length args.passphrase < 64
  pub shadow_fits : length args.shadow_passphrase < 64
  pub dev_fits : length args.passive_dev < 32
  pub entropy_fits : length args.entropy_dir < 64

-- The options are those that the type of the instance asks for.
abbrev pub IsMeaningful : Args → Type 0
IsMeaningful args =
    (args.instance_type ≡ 0)
      × (is_empty args.entropy_dir ≡ false)
      × (is_empty args.shadow_passphrase ≡ true)
    ⊎ (args.instance_type ≡ 1)
      × (is_empty args.entropy_dir ≡ true)
      × (is_empty args.shadow_passphrase ≡ true)
    ⊎ (args.instance_type ≡ 2)
      × (is_empty args.entropy_dir ≡ false)
      × (is_empty args.shadow_passphrase ≡ false)

-- The arguments, if they are accepted, are as `P` says.
abbrev Holds : (Args → Type 0) → Option Args → Type 0
Holds P none = Unit {0}
Holds P (some args) = P args

take-fits : (n : ℕ) (xs : List ℕ) → length (take n xs) < suc n
take-fits n xs = omega (arith, length-take n xs)

parse_options-Fits :
    (argv : List (List ℕ)) (args : Args) → Fits args → Holds Fits (parse_options args argv)
unfolding parse_options
parse_options-Fits [] args f = f
parse_options-Fits (name ∷ []) args f = tt
parse_options-Fits (name ∷ value ∷ argv) args f =
    elim (Bool-cases (same_text name entropy_option)) [
      | inl entropy ↦ rw entropy (
          parse_options-Fits argv (record args { entropy_dir = take 63 value })
            (record {
              passphrase_fits = f.passphrase_fits;
              shadow_fits = f.shadow_fits;
              dev_fits = f.dev_fits;
              entropy_fits = take-fits 63 value;
            }))
      | inr other ↦ elim (Bool-cases (same_text name shadow_option)) [
        | inl shadow ↦
            rw (other, shadow)
              (parse_options-Fits argv (record args { shadow_passphrase = take 63 value })
                (record {
                  passphrase_fits = f.passphrase_fits;
                  shadow_fits = take-fits 63 value;
                  dev_fits = f.dev_fits;
                  entropy_fits = f.entropy_fits;
                }))
        | inr unknown ↦ rw (other, unknown) tt
      ]
    ]

-- What `parse_afs_args` makes sure of.
abbrev pub IsAccepted : Args → Type 0
IsAccepted args = Fits args × IsMeaningful args

check_type-IsAccepted : (args : Args) → Fits args → Holds IsAccepted (check_type args)
unfolding check_type
check_type-IsAccepted args f = elim (Bool-cases (args.instance_type == 0)) [
  | inl create ↦
      elim (Bool-cases (not (is_empty args.entropy_dir) && is_empty args.shadow_passphrase)) [
        | inl good ↦ rw (create, good) (f, inl (ground arith, ground arith, ground arith))
        | inr bad ↦ rw (create, bad) tt
      ]
  | inr other ↦ elim (Bool-cases (args.instance_type == 1)) [
    | inl mount ↦ elim (Bool-cases (is_empty args.entropy_dir && is_empty args.shadow_passphrase)) [
      | inl good ↦ rw (other, mount, good) (f, inr (inl (ground arith, ground arith, ground arith)))
      | inr bad ↦ rw (other, mount, bad) tt
    ]
    | inr more ↦ elim (Bool-cases (args.instance_type == 2)) [
      | inl shadow ↦
          elim (Bool-cases
            (not (is_empty args.entropy_dir) && not (is_empty args.shadow_passphrase))) [
              | inl good ↦
                  rw (other, more, shadow, good)
                    (f, inr (inr (ground arith, ground arith, ground arith)))
              | inr bad ↦ rw (other, more, shadow, bad) tt
            ]
      | inr unknown ↦ rw (other, more, unknown) tt
    ]
  ]
]

parse_rest-IsAccepted :
    (args : Args) (argv : List (List ℕ)) → Fits args → Holds IsAccepted (parse_rest args argv)
unfolding parse_rest
parse_rest-IsAccepted args argv f = step (parse_options args argv) (parse_options-Fits argv args f)
  where
    step :
        (r : Option Args)
        → Holds Fits r
        → Holds IsAccepted (elim r [ none ↦ none | some args' ↦ check_type args' ])
    step none h = tt
    step (some args') h = check_type-IsAccepted args' h

parse_afs_args-Holds :
    (kstrtou8 : List ℕ → Option ℕ) (argv : List (List ℕ))
    → Holds IsAccepted (parse_afs_args kstrtou8 argv)
unfolding parse_afs_args
parse_afs_args-Holds kstrtou8 [] = tt
parse_afs_args-Holds kstrtou8 (type ∷ []) = tt
parse_afs_args-Holds kstrtou8 (type ∷ passphrase ∷ []) = tt
parse_afs_args-Holds kstrtou8 (type ∷ passphrase ∷ disk ∷ argv) = step (kstrtou8 type)
  where
    step :
        (r : Option ℕ)
        → Holds IsAccepted (elim r [
          | none ↦ none
          | some instance_type ↦
              parse_rest
                (record {
                  passphrase = take 63 passphrase;
                  shadow_passphrase = [];
                  passive_dev = take 31 disk;
                  entropy_dir = [];
                  instance_type = instance_type;
                })
                argv
        ])
    step none = tt
    step (some instance_type) = parse_rest-IsAccepted _ argv (record {
      passphrase_fits = take-fits 63 passphrase;
      shadow_fits = omega arith;
      dev_fits = take-fits 31 disk;
      entropy_fits = omega arith;
    })

-- Arguments that `parse_afs_args` accepts fit their buffers with a `NUL`, and they name an entropy
-- directory and a shadow passphrase as the type asks: the first only to create an instance, neither to
-- mount one, both for a shadow.
pub parse_afs_args-IsAccepted :
    (kstrtou8 : List ℕ → Option ℕ) (argv : List (List ℕ)) (args : Args)
    → parse_afs_args kstrtou8 argv ≡ some args
    → IsAccepted args
parse_afs_args-IsAccepted kstrtou8 argv args e = rw e at (parse_afs_args-Holds kstrtou8 argv)

-- An option with its value, if there is a value.
abbrev pub option_args : List ℕ → List ℕ → List (List ℕ)
option_args name [] = []
option_args name (x ∷ xs) = name ∷ (x ∷ xs) ∷ []

-- The command line for the arguments, with `type` for the type of the instance.
abbrev pub command_line : List ℕ → Args → List (List ℕ)
command_line type args =
    type
    ∷ args.passphrase
    ∷ args.passive_dev
    ∷ (option_args entropy_option args.entropy_dir
        ++ option_args shadow_option args.shadow_passphrase)

check_type-some : (args : Args) → IsMeaningful args → check_type args ≡ some args
unfolding check_type
check_type-some args (inl (t, e, s)) = rw (t, e, s) refl
check_type-some args (inr (inl (t, e, s))) = rw (t, e, s) refl
check_type-some args (inr (inr (t, e, s))) = rw (t, e, s) refl

-- The arguments that the loop starts with, and those with the options.
abbrev with_options : Args → List ℕ → List ℕ → Args
with_options args entropy shadow = record args { entropy_dir = entropy; shadow_passphrase = shadow }

parse_options-option_args :
    (args : Args) (entropy shadow : List ℕ)
    → length entropy < 64
    → length shadow < 64
    → parse_options
        (with_options args [] [])
        (option_args entropy_option entropy ++ option_args shadow_option shadow)
      ≡ some (with_options args entropy shadow)
unfolding parse_options same_text
parse_options-option_args args [] [] h k = refl
parse_options-option_args args (x ∷ xs) [] h k =
    let e = take_all 62 xs (omega arith) in ap (λ v. some (with_options args (x ∷ v) [])) e
parse_options-option_args args [] (y ∷ ys) h k =
    let e = take_all 62 ys (omega arith) in ap (λ v. some (with_options args [] (y ∷ v))) e
parse_options-option_args args (x ∷ xs) (y ∷ ys) h k =
    let e = take_all 62 xs (omega arith) in
    let f = take_all 62 ys (omega arith) in λ i. some (with_options args (x ∷ e i) (y ∷ f i))

-- `parse_afs_args` reads arguments that fit their buffers and that the type asks for back from the
-- command line that names them, whatever text `kstrtou8` reads as the type.
pub parse_afs_args-command_line :
    (kstrtou8 : List ℕ → Option ℕ) (type : List ℕ) (args : Args)
    → Fits args
    → IsMeaningful args
    → kstrtou8 type ≡ some args.instance_type
    → parse_afs_args kstrtou8 (command_line type args) ≡ some args
unfolding parse_afs_args parse_rest
parse_afs_args-command_line kstrtou8 type args f m e =
    let p = take_all 63 args.passphrase (let l = f.passphrase_fits in omega arith) in
    let d = take_all 31 args.passive_dev (let l = f.dev_fits in omega arith) in
    let o =
      parse_options-option_args args args.entropy_dir args.shadow_passphrase f.entropy_fits
        f.shadow_fits in
    rw (e, p, d, parse_rest, o) (check_type-some args m)
