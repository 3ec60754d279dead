-- ===== src/Engine/Lifetime.antt =====
-- The memory of a request: what `init_request` of src/dm_afs.c allocates, what a request of
-- src/dm_afs_engine.c owns, and how `afs_req_clean` gives it back and ends the bio.
use artifice.Base.{Bool, true, false, if◌then◌else◌, List, [], ◌∷◌, Outcome, fault, done}
use artifice.Target.Lifecycle.{Handle, null, live, freed, error_pointer, free_then}

-- `req->bio`: what `kmalloc` left there, a bio that waits for its end, or one that was ended.
pub data Bio : Type 0 where
  unwritten waiting ended : Bio

-- `enum afs_req_state`
pub data State : Type 0 where
  ground flight completed : State

-- `struct afs_map_request`, as far as it owns something. `lost` are the contexts whose pointer in `encoder`
-- was overwritten.
pub record HeldRequest : Type 0 where
  pub req : Handle
  pub carrier_blocks : List Handle
  pub state : State
  pub bio : Bio
  pub encoder : Handle
  pub allocated_write_page : Handle
  pub lost : List Handle

-- Memory that is read or written, and what follows.
unfoldable pub use_then {ℓ} : {A : Type ℓ} → Handle → Outcome A → Outcome A
use_then live next = next
use_then null next = fault
use_then freed next = fault
use_then (error_pointer e) next = fault

-- The bio is read or written.
unfoldable pub use_bio_then {ℓ} : {A : Type ℓ} → Bio → Outcome A → Outcome A
use_bio_then waiting next = next
use_bio_then unwritten next = fault
use_bio_then ended next = fault

unfoldable pub all_live : List Handle → Bool
all_live [] = true
all_live (live ∷ pages) = all_live pages
all_live (_ ∷ pages) = false

-- The pages of the carriers are encoded into, handed to `virt_to_page`, hashed and decoded: one that
-- `init_request` did not get is a fault.
unfoldable pub use_pages_then {ℓ} : {A : Type ℓ} → List Handle → Outcome A → Outcome A
unfolding all_live
use_pages_then pages next = if all_live pages then next else fault

-- The loop over `free_page`
unfoldable pub free_pages_then {ℓ} :
    {A : Type ℓ} → List Handle → (List Handle → Outcome A) → Outcome A
unfolding free_then
free_pages_then [] next = next []
free_pages_then (page ∷ pages) next =
    free_then page (λ h. free_pages_then pages (λ hs. next (h ∷ hs)))

-- `init_request`, with the pages of its loop.
unfoldable pub init_request : List Handle → HeldRequest
init_request pages = record {
  req = live;
  carrier_blocks = pages;
  state = ground;
  bio = unwritten;
  encoder = null;
  allocated_write_page = null;
  lost = [];
}

-- `afs_req_clean`
unfoldable pub afs_req_clean : HeldRequest → Outcome HeldRequest
unfolding use_then use_bio_then free_then free_pages_then
afs_req_clean r = use_then r.req (
    free_pages_then r.carrier_blocks (λ pages. use_bio_then r.bio (
      free_then r.encoder (λ _. free_then r.allocated_write_page (λ _. free_then r.req (λ req.
        done (record {
          req = req;
          carrier_blocks = pages;
          state = completed;
          bio = ended;
          encoder = null;
          allocated_write_page = null;
          lost = r.lost;
        })))))))

unfoldable pub set_encoder : Handle → HeldRequest → HeldRequest
set_encoder h r = record r { encoder = h; lost = r.encoder ∷ r.lost }

-- `gfshare_ctx_free(req->encoder); req->encoder = NULL;` with secret sharing.
unfoldable pub free_encoder : Bool → HeldRequest → Outcome HeldRequest
unfolding use_then
free_encoder is_shamir r =
    let r' = record r { encoder = null } in
    if is_shamir then use_then r.encoder (done r') else done r
