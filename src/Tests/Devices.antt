-- ===== src/Tests/Devices.antt =====
-- The device table, devfs, the programs' system calls and the loader.
use cookies_os.Base.{
  ℕ, ◌*◌, ◌^◌, ◌<◌, ◌≤◌, ◌≡◌, inl, inr, refl, arith, ◌==◌, if◌then◌else◌, some, [], ◌∷◌, Mem, ℤ,
  pos,
}
use cookies_os.Libc.{memcpy}
use cookies_os.Libc.Copy.{memcpy_lem}
use cookies_os.Libc.Strings.{IsText}
use cookies_os.Vfs.{vfs_node_new}
use cookies_os.Machine.{Machine, M, ret}
use cookies_os.Device.{devices_add, vfs_char_dev}
use cookies_os.Device.Table.{Added, devices_add-Added}
use cookies_os.Devfs.{devfs_find_dir, devfs_read_dir}
use cookies_os.Devfs.Search.{Searched, devfs_find_dir-Searched}
use cookies_os.Devfs.Listing.{Listed, devfs_read_dir-Listed}
use cookies_os.Syscalls.{SyscallRegs}
use cookies_os.Syscalls.Dispatch.{Dispatched, syscall_dispatch-Dispatched}
use cookies_os.Syscalls.Heap.{Served, sc_kfree-Served}
use cookies_os.Elf.{elf_probe, probe_loop, elf_stat}
use cookies_os.Frame.{Frames, frame_alloc_ex, frame_free_ex, frame_frist_free, frame_set}
use cookies_os.Frame
use cookies_os.Paging.{Paging, paged, paging_map}
use cookies_os.Paging.Map.{paging_map-Translates}
use cookies_os.Elf.Load.{Ran, with_frames, no_more, loaded}
use cookies_os.Elf.Probe.{Accepted, elf_stat-Stated}
use cookies_os.Tests.Kheap.{two, used, spare, two-IsHeap}
use cookies_os.Tests.Paging.{running}
use cookies_os.Tests.Drivers.{idle}

-- The table stands at 20000 and holds "kb"; another node, "tty", stands at 30000, and "kb" at 40000.
abbrev contents : Mem
contents a =
    if a == 20000
    then b'k'
    else if a == 20001
    then b'b'
    else if a == 30000
    then b't'
    else if a == 30001
    then b't'
    else if a == 30002
    then b'y'
    else if a == 40000
    then b'k'
    else if a == 40001
    then b'b'
    else 0

abbrev pub machine : Machine
machine = record {
  mem = contents;
  heap = two;
  nodes = λ a. record vfs_node_new { flag = vfs_char_dev };
  m_devices = 20000;
  m_devices_number = 1;
  mounts = record { mount_points = λ i. record { path = 0; device = 0 }; mount_count = 0 };
  term = record { row = 0; column = 0; color = 7; buffer = λ i. 0; port = [] };
  paging = running;
  keyboard = idle;
  strtok_input = 0;
}

tty-IsText : IsText contents 30000 3
tty-IsText = record { ends = refl; inside = λ j lt. ground arith }

wanted-IsText : IsText contents 40000 2
wanted-IsText = record { ends = refl; inside = λ j lt. ground arith }

listed-IsText : IsText contents 20000 2
listed-IsText = record { ends = refl; inside = λ j lt. ground arith }

contents_bytes : (a : ℕ) → contents a < 256
contents_bytes a = ground arith

devices_add-Added_example :
    (x' : Machine) × (devices_add 10 30000 machine ≡ some (1, x')) × Added machine 30000 3 1 x'
devices_add-Added_example =
    devices_add-Added 10 machine 30000 3 tty-IsText (omega arith) (omega arith) (omega arith)
      (inl (omega arith))

devfs_find_dir-Searched_example :
    (r : ℤ) × (x' : Machine) × (devfs_find_dir 10 40000 50000 machine ≡ some (r, x'))
    × Searched machine 40000 2 50000 0 r x'
devfs_find_dir-Searched_example =
    devfs_find_dir-Searched 10 machine 40000 2 50000 wanted-IsText contents_bytes (omega arith)

devfs_read_dir-Listed_example :
    (0 ≤ 1
      → (x' : Machine) × (devfs_read_dir 10 0 60000 machine ≡ some (pos 0, x'))
        × Listed machine 20000 2 60000 x')
    × (1 < 0 → devfs_read_dir 10 0 60000 machine ≡ some (pos 1, machine))
devfs_read_dir-Listed_example =
    devfs_read_dir-Listed 10 machine 0 60000 2 listed-IsText (omega arith) (inr (omega arith))

abbrev asked : SyscallRegs
asked = record { ebx = 24; ecx = 70000; edx = 0; esi = 0 }

sc_kfree-Served_example :
    (x1 : Machine) × (x2 : Machine) × Served
      (2 ^ 31)
      contents
      0
      0
      (pos 0)
      0
      0
      machine
      (used ∷ spare ∷ [])
      asked
      x1
      x2
sc_kfree-Served_example =
    sc_kfree-Served (2 ^ 31) contents 0 0 (pos 0) 0 0 machine (used ∷ spare ∷ []) asked two-IsHeap
      (omega arith) (omega arith)

-- A file that is no program.
not_probed : elf_probe contents 20000 ≡ 0
unfolding elf_probe probe_loop
not_probed = refl

abbrev idle_code : ℕ → M ℤ
idle_code entry = ret (pos 0)

-- The count stands at 1 MB; the number 13 passes, and calls what answers 7.
syscall_dispatch-Dispatched_example :
    Dispatched 10 contents 0 0 (pos 0) 0 0 (λ number regs. ret (pos 7)) 0x100000 13 asked machine
syscall_dispatch-Dispatched_example =
    syscall_dispatch-Dispatched 10 contents 0 0 (pos 0) 0 0 (λ number regs. ret (pos 7)) 0x100000 13
      asked machine (omega arith)

-- A program of one segment, two bytes that go to 20480, at 60000.
abbrev program : Mem
program a =
    if a == 60000
    then 0x7f
    else if a == 60001
    then 0x45
    else if a == 60002
    then 0x4c
    else if a == 60003
    then 0x46
    else if a == 60016
    then 2
    else if a == 60025
    then 0x50
    else if a == 60028
    then 52
    else if a == 60044
    then 1
    else if a == 60052
    then 1
    else if a == 60056
    then 84
    else if a == 60061
    then 0x50
    else if a == 60068
    then 2
    else if a == 60084
    then 0x90
    else if a == 60085
    then 0xc3
    else 0

abbrev with_program : Machine
with_program = record machine { mem = program }

-- Three frames are given from the third free one on.
three_given : (f : Frames) × (frame_alloc_ex running.frames 3 ≡ Frame.alloced 0x12000 f)
unfolding frame_alloc_ex frame_frist_free frame_set
three_given = (_, refl)

mapped :
    (p : Paging) × (paging_map (record running { frames = three_given.0 }) 0x5000 (18 * 4096)
      ≡ paged p)
mapped =
    let (p, e, t) =
      paging_map-Translates (record running { frames = three_given.0 }) 0x5000 18
        (record { below = omega arith; virtual = omega arith; word = omega arith }) refl
        (omega arith) (omega arith) (omega arith) in
    (p, e)

-- The copy leaves the number of headers.
kept : (memcpy program 0x5000 60084 2 60044 ≡ 1) × (memcpy program 0x5000 60084 2 60045 ≡ 0)
kept = (
  memcpy_lem program 0x5000 60084 2 60044 (ground arith),
  memcpy_lem program 0x5000 60084 2 60045 (ground arith),
)

program_runs : (z : Machine) × Ran idle_code 60000 1 with_program 0x12000 (pos 0) z
program_runs = (
  _,
  record {
    frames = three_given.0;
    found = three_given.1;
    y = _;
    segments = loaded (mapped.0) (omega arith) refl (mapped.1) (no_more (omega (arith, kept)));
    run = refl;
  },
)

program-Accepted : Accepted program 60000 100
program-Accepted = record {
  signed = (refl, refl, refl, refl);
  long = omega arith;
  executable = refl;
}

-- The whole run of that program.
elf_stat_runs :
    elf_stat 5 idle_code 60000 100 with_program
    ≡ some (
      pos 0,
      with_frames (program_runs.0) (frame_free_ex (program_runs.0).paging.frames 0x12000 3),
    )
elf_stat_runs =
    (elf_stat-Stated 5 idle_code 60000 100 with_program).ran program-Accepted 1 0x12000 (pos 0)
      (program_runs.0) (omega arith) (program_runs.1)
