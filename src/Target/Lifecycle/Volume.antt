-- ===== src/Target/Lifecycle/Volume.antt =====
-- The pointers of `struct afs_private` of src/dm_afs.c, each with the state of what it points to, and
-- the kernel's calls that free.
use artifice.Base.{Errno, Result, err, Outcome, fault}

-- `null`, memory that is held, memory that was given back, or an error number (`ERR_PTR`).
pub data Handle : Type 0 where
  null live freed : Handle
  error_pointer : Errno → Handle

-- `context` itself and the fields of `struct afs_private` that own something.
pub record Volume : Type 0 where
  pub context : Handle
  pub passive_dev : Handle
  pub block_list : Handle
  pub vector : Handle
  pub afs_map : Handle
  pub afs_map_blocks : Handle
  pub afs_ptr_blocks : Handle
  pub flight_wq : Handle
  pub rebuild_wq : Handle
  pub crypto_wq : Handle

-- `IS_ERR` and `PTR_ERR`: the label for the error number, or what follows.
unfoldable pub is_err_then {ℓ} :
    {A : Type ℓ} → Handle → (Result (Unit {0}) → Outcome A) → Outcome A → Outcome A
is_err_then null label next = next
is_err_then live label next = next
is_err_then freed label next = next
is_err_then (error_pointer e) label next = label (err e)

-- `kfree`, `vfree` and `bit_vector_free`, and what follows: `NULL` is left alone, and memory that was given
-- back before is a fault.
unfoldable pub free_then {ℓ} : {A : Type ℓ} → Handle → (Handle → Outcome A) → Outcome A
free_then null next = next null
free_then live next = next freed
free_then freed next = fault
free_then (error_pointer e) next = fault

-- `dm_put_device` and `destroy_workqueue`, which read what they are given, and what follows.
unfoldable pub destroy_then {ℓ} : {A : Type ℓ} → Handle → (Handle → Outcome A) → Outcome A
destroy_then null next = fault
destroy_then live next = next freed
destroy_then freed next = fault
destroy_then (error_pointer e) next = fault
