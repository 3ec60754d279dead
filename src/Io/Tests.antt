-- ===== src/Io/Tests.antt =====
-- Pages on a small device.
use artifice.Base.{ℕ, ◌+◌, ◌^◌, ◌≡◌, ◌≢◌, arith, true, ok, List, [], replicate, length-replicate}
use artifice.Kernel.{pages_device}
use artifice.Io.{read_page, write_page}
use artifice.Io.Laws.{read_page-write_page, write_page_wraps}

abbrev empty_disk : ℕ → List ℕ
empty_disk s = []

abbrev page : List ℕ
page = replicate 4096 7

read_page-write_page_example :
    ((write_page pages_device true page 3 2048 empty_disk).0 ≡ ok tt)
    × (read_page pages_device true [] 3 2048 (write_page pages_device true page 3 2048 empty_disk).1
        ≡ (ok tt, page))
    × (◌≢◌ {A = ℕ} 3 4
        → read_page pages_device true [] 4 2048
            (write_page pages_device true page 3 2048 empty_disk).1
          ≡ read_page pages_device true [] 4 2048 empty_disk)
read_page-write_page_example =
    read_page-write_page pages_device 3 4 2048 page [] empty_disk (omega arith) (omega arith)
      (omega arith) (length-replicate 4096 7)

write_page_wraps_example :
    write_page pages_device true page (3 + 2 ^ 20) 2048 empty_disk
    ≡ write_page pages_device true page 3 2048 empty_disk
write_page_wraps_example = write_page_wraps pages_device 3 2048 page empty_disk true
