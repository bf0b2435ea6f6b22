-- ===== src/Tests/Paging.antt =====
-- src/kernel/paging.c and src/kernel/paging.h.
use cookies_os.Base.{◌*◌, ◌≡◌, refl, arith, false, inl, ◌==◌, if◌then◌else◌}
use cookies_os.Frame.{Frames, alloced, frame_alloc, frame_alloc_ex, frame_frist_free, frame_set}
use cookies_os.Paging.{Paging, paged, paging_map, paging_init}
use cookies_os.Paging.Map.{Translates, table_entry, paging_map-Translates}
use cookies_os.Paging.Absent.{Lost, paging_map-Lost}
use cookies_os.Paging.Init.{Identity, paging_init-Identity}

abbrev all_free : Frames
all_free = record { words = λ i. 0; frames_max = 64; alloced_frames = 0 }

-- The first 16 frames are taken.
abbrev low_taken : Frames
low_taken = record {
  words = λ i. if i == 0 then 0xFFFF else 0;
  frames_max = 64;
  alloced_frames = 16;
}

abbrev started : Paging
started = record {
  frames = all_free;
  words = λ a. 0;
  current_page_dir = 0;
  kernel_page_dir = 0;
  cr3 = 0;
  paging_on = false;
}

first_frame :
    frame_alloc all_free ≡ alloced 0 (record (frame_set all_free 0) { alloced_frames = 1 })
unfolding frame_alloc_ex frame_frist_free frame_set
first_frame = refl

-- The run of three from frame 1 on is found, and frames 3 to 5 are handed out.
next_three :
    frame_alloc_ex (record (frame_set all_free 0) { alloced_frames = 1 }) 3
    ≡ alloced 0x3000
        (record (frame_set
          (frame_set (frame_set (record (frame_set all_free 0) { alloced_frames = 1 }) 3) 4)
          5) { alloced_frames = 4 })
unfolding frame_alloc_ex frame_frist_free frame_set
next_three = refl

paging_init_example : (p' : Paging) × (paging_init started ≡ paged p') × Identity p' 0x3000
paging_init_example =
    paging_init-Identity started 0 0x3000 _ _ first_frame next_three (omega arith) (omega arith)
      (inl (omega arith))

-- A directory at 0x3000 whose first table is at 0; the others are absent.
abbrev pub running : Paging
running = record {
  frames = low_taken;
  words = λ a. if a == 0x3000 then 3 else 2;
  current_page_dir = 0x3000;
  kernel_page_dir = 0x3000;
  cr3 = 0x3000;
  paging_on = false;
}

map_example :
    (p' : Paging) × (paging_map running 0x5123 (9 * 4096) ≡ paged p')
    × Translates running p' 0x5123 9
        (running.words (table_entry running.words running.current_page_dir 0x5123))
map_example =
    paging_map-Translates running 0x5123 9
      (record { below = omega arith; virtual = omega arith; word = omega arith }) refl (omega arith)
      (omega arith) (omega arith)

free_frame :
    frame_alloc low_taken
    ≡ alloced 0x10000 (record (frame_set low_taken 16) { alloced_frames = 17 })
unfolding frame_alloc_ex frame_frist_free frame_set
free_frame = refl

absent_table_example :
    (p' : Paging) × (paging_map running 0x400000 0x9000 ≡ paged p')
    × Lost running p'
        (record (frame_set low_taken 16) { alloced_frames = 17 })
        0x400000
        0x9000
        0x10000
absent_table_example =
    paging_map-Lost running 0x400000 0x9000 0x10000 _ (omega arith) (omega arith) refl (omega arith)
      free_frame (omega arith) (omega arith) (omega arith) (inl (omega arith))
