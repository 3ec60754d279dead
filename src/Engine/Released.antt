-- ===== src/Engine/Released.antt =====
-- What is left of a request of src/dm_afs_engine.c, and of its bio, when all of its work is done.
use artifice.Base.{
  ◌≡◌, inl, inr, refl, Bool, Bool-cases, true, false, ◌&&◌, not, if◌then◌else◌, List, [], ◌∷◌,
  Result, ok, err, fault,
}
use artifice.Target.Lifecycle.{Handle, null, live}
use artifice.Target.Request.{Op, op_read}
use artifice.Engine.Lifetime.{
  waiting, unwritten, flight, HeldRequest, all_live, use_then, use_bio_then, use_pages_then,
  init_request, set_encoder,
}
use artifice.Engine.Handlers.{
  RequestCalls, if_flight, returns, read_sent, read_carriers, afs_rebuild_request, finish,
  afs_rebuildq, read_decode, afs_cryptoq, completes, complete, run_rebuild,
}
use artifice.Engine.Cleaned.{AreFresh, AreReleased, IsGone, Cleaned, at_work, unwritten_faults}

is_ok : Result (Unit {0}) → Bool
is_ok (ok _) = true
is_ok (err _) = false

-- Whether a read comes to `rebuild_blocks`, and whether that sends its pages.
repairs : Op → RequestCalls → Bool
unfolding is_ok
repairs op_read calls = not calls.is_unmapped && is_ok calls.read_pages && calls.rebuild_flag
repairs _ calls = false

rebuilt : RequestCalls → Bool
unfolding is_ok
rebuilt calls = is_ok calls.rebuild_acquired && is_ok calls.rebuild_write_pages

-- The end of a request, by whether it repairs, whether that succeeds, and whether it is secret sharing.
abbrev EndsWith : Bool → Bool → Bool → HeldRequest → Type 0
EndsWith false succeeds is_shamir r = IsGone r × AreReleased r.lost
EndsWith true true is_shamir r = IsGone r × (r.lost ≡ (if is_shamir then live ∷ null ∷ [] else []))
EndsWith true false is_shamir r = (r.req ≡ live) × (r.bio ≡ waiting)

abbrev pub Ends : Op → RequestCalls → HeldRequest → Type 0
unfolding repairs rebuilt is_ok
Ends op calls r = EndsWith (repairs op calls) (rebuilt calls) calls.is_shamir r

-- With secret sharing there is memory for the contexts.
abbrev pub HasMemory : RequestCalls → Type 0
HasMemory calls =
    calls.is_shamir ≡ true
    → (calls.init_dec ≡ live) × (calls.init_enc ≡ live) × (calls.rebuild_init_enc ≡ live)

module _ (pages : List Handle) (fresh : AreFresh pages) (whole : all_live pages ≡ true) where
  sent_faults :
      (calls : RequestCalls) (read_pages : Result (Unit {0})) (encoder : Handle)
      (lost : List Handle)
      → (calls.is_shamir ≡ true → encoder ≡ live)
      → complete calls (
          finish
            (read_sent read_pages (record (at_work pages flight encoder lost) { bio = unwritten })))
        ≡ fault
  unfolding complete completes finish read_sent afs_cryptoq read_decode use_then use_bio_then
      use_pages_then
  sent_faults calls (err e) encoder lost h =
      rw (unwritten_faults pages fresh flight encoder lost) refl
  sent_faults calls (ok _) encoder lost h = elim (Bool-cases calls.is_shamir) [
    | inl secret ↦ rw (whole, secret, h secret) refl
    | inr plain ↦ rw (whole, plain) refl
  ]

  faulted : (calls : RequestCalls) → complete calls (finish fault) ≡ fault
  unfolding complete completes finish
  faulted calls = refl

  chosen_faults :
      (calls : RequestCalls) (is_shamir : Bool)
      → HasMemory calls
      → calls.is_shamir ≡ is_shamir
      → let r = at_work pages flight null [] in
        let r' = record r { bio = unwritten } in
        complete calls (
          finish
            (read_sent calls.read_pages (if is_shamir then set_encoder calls.init_dec r' else r')))
        ≡ fault
  unfolding set_encoder
  chosen_faults calls true ready e =
      sent_faults calls calls.read_pages calls.init_dec (null ∷ []) (λ h. (ready h).0)
  chosen_faults calls false ready e = sent_faults calls calls.read_pages null [] (λ h. absurd cc)

  -- A request of `afs_rebuild` has no bio: whatever it finds, reading it is a fault.
  pub run_rebuild_faults :
      (calls : RequestCalls) → HasMemory calls → run_rebuild calls pages ≡ fault
  unfolding run_rebuild afs_rebuildq afs_rebuild_request init_request if_flight returns
      read_carriers set_encoder use_then use_pages_then
  run_rebuild_faults calls ready = elim (Bool-cases calls.is_unmapped) [
    | inl u ↦ rw (u, unwritten_faults pages fresh flight null []) (faulted calls)
    | inr m ↦ rw (m, whole) (chosen_faults calls calls.is_shamir ready refl)
  ]
