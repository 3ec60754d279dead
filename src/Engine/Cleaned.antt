-- ===== src/Engine/Cleaned.antt =====
-- What `afs_req_clean` of src/dm_afs_engine.c leaves of a request and its bio.
use artifice.Base.{true, ◌≡◌, refl, List, [], ◌∷◌, Outcome, fault, done}
use artifice.Target.Lifecycle.{Handle, null, live, freed, error_pointer, free_then}
use artifice.Target.Lifecycle.Held.{IsReleased, IsFresh}
use artifice.Engine.Lifetime.{
  all_live, waiting, ended, unwritten, State, HeldRequest, use_then, use_bio_then, free_pages_then,
  afs_req_clean,
}

abbrev pub AreFresh : List Handle → Type 0
AreFresh [] = Unit {0}
AreFresh (h ∷ hs) = IsFresh h × AreFresh hs

-- All pages of the carriers were allocated.
abbrev pub AreLive : List Handle → Type 0
AreLive [] = Unit {0}
AreLive (h ∷ hs) = (h ≡ live) × AreLive hs

abbrev pub AreReleased : List Handle → Type 0
AreReleased [] = Unit {0}
AreReleased (h ∷ hs) = IsReleased h × AreReleased hs

-- The bio has been ended, and the request and all it owns given back.
pub record IsGone (r : HeldRequest) : Type 0 where
  pub bio : r.bio ≡ ended
  pub req : IsReleased r.req
  pub carrier_blocks : AreReleased r.carrier_blocks
  pub encoder : IsReleased r.encoder
  pub allocated_write_page : IsReleased r.allocated_write_page

pub AreLive-AreFresh : (pages : List Handle) → AreLive pages → AreFresh pages
AreLive-AreFresh [] h = tt
AreLive-AreFresh (page ∷ pages) (e, h) = (rw e tt, AreLive-AreFresh pages h)

pub all_live-AreLive : (pages : List Handle) → AreLive pages → all_live pages ≡ true
unfolding all_live
all_live-AreLive [] h = refl
all_live-AreLive (page ∷ pages) (e, h) = rw e (all_live-AreLive pages h)

free_pages_lem :
    (pages : List Handle)
    → AreFresh pages
    → (hs : List Handle) × AreReleased hs
      × ((next : List Handle → Outcome HeldRequest) → free_pages_then pages next ≡ next hs)
unfolding free_pages_then free_then
free_pages_lem [] h = ([], tt, λ next. refl)
free_pages_lem (null ∷ pages) h =
    let (hs, released, e) = free_pages_lem pages h.1 in
    (null ∷ hs, (tt, released), λ next. e (λ hs'. next (null ∷ hs')))
free_pages_lem (live ∷ pages) h =
    let (hs, released, e) = free_pages_lem pages h.1 in
    (freed ∷ hs, (tt, released), λ next. e (λ hs'. next (freed ∷ hs')))
free_pages_lem (freed ∷ pages) h = absurd h.0
free_pages_lem (error_pointer e ∷ pages) h = absurd h.0

-- A request at work.
abbrev pub at_work : List Handle → State → Handle → List Handle → HeldRequest
at_work pages state encoder lost = record {
  req = live;
  carrier_blocks = pages;
  state = state;
  bio = waiting;
  encoder = encoder;
  allocated_write_page = null;
  lost = lost;
}

-- Cleaning up such a request
unfoldable pub Cleaned : List Handle → State → Handle → List Handle → Type 0
Cleaned pages state encoder lost =
    (r : HeldRequest) × (afs_req_clean (at_work pages state encoder lost) ≡ done r)
    × IsGone r
    × (r.lost ≡ lost)

module _ (pages : List Handle) (fresh : AreFresh pages) where
  pub clean_lem :
      (state : State) (encoder : Handle) (lost : List Handle)
      → IsFresh encoder
      → Cleaned pages state encoder lost
  unfolding Cleaned afs_req_clean use_then use_bio_then free_then
  clean_lem state null lost h =
      let (hs, released, e) = free_pages_lem pages fresh in
      (
        _,
        e _,
        record {
          bio = refl;
          req = tt;
          carrier_blocks = released;
          encoder = tt;
          allocated_write_page = tt;
        },
        refl,
      )
  clean_lem state live lost h =
      let (hs, released, e) = free_pages_lem pages fresh in
      (
        _,
        e _,
        record {
          bio = refl;
          req = tt;
          carrier_blocks = released;
          encoder = tt;
          allocated_write_page = tt;
        },
        refl,
      )
  clean_lem state freed lost h = absurd h
  clean_lem state (error_pointer e) lost h = absurd h

  pub unwritten_faults :
      (state : State) (encoder : Handle) (lost : List Handle)
      → afs_req_clean (record (at_work pages state encoder lost) { bio = unwritten }) ≡ fault
  unfolding afs_req_clean use_then use_bio_then
  unwritten_faults state encoder lost = let (hs, released, e) = free_pages_lem pages fresh in e _
