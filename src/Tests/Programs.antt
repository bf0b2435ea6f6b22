-- ===== src/Tests/Programs.antt =====
-- The programs of the shell, the exceptions and the identification of the drive.
use cookies_os.Base.{ℕ, ◌^◌, ◌≡◌, refl, arith, ◌==◌, if◌then◌else◌, some, [], ◌∷◌}
use cookies_os.Kheap.Headers.{kheap_print_headers, entries_text, kheap_print_headers-entries}
use cookies_os.Terminal.{term_write}
use cookies_os.Panic.Shown.{Exceptions, Exceptions-Shown}
use cookies_os.Ata.Identify.{Bus}
use cookies_os.Ata.Identify.Quiet.{Settled}
use cookies_os.Ata.Identify.Verdict.{verdict, Identified, ide_identify-Identified}
use cookies_os.Start.{HandlerTable}
use cookies_os.Start.Handlers.{Words, Handlers, all_gates, all_gates-Handlers}
use cookies_os.Tests.Drivers.{blank}
use cookies_os.Machine.{Machine}
use cookies_os.Programs.{malloctest_prog}
use cookies_os.Programs.Malloctest.{Tested, malloctest_prog-Tested}
use cookies_os.Tests.Kheap.{two, used, spare, two-IsHeap}
use cookies_os.Tests.Terminal.{top, top-IsOnScreen}
use cookies_os.Tests.Devices.{machine}

kheap_print_headers-entries_example :
    kheap_print_headers 5 two top ≡ some (term_write top (entries_text (used ∷ spare ∷ [])))
kheap_print_headers-entries_example =
    kheap_print_headers-entries 5 two used (spare ∷ []) top two-IsHeap (omega arith)

Exceptions-Shown_example : Exceptions 0x1000 2 top
Exceptions-Shown_example = Exceptions-Shown 0x1000 2 top top-IsOnScreen

-- A drive that is ready, at once.
abbrev answer : ℕ → ℕ → ℕ
answer port n = if port == 0x1F7 then 0x50 else 0

answer-Settled : Settled answer 0x50 0 0
answer-Settled = record {
  status = λ n. refl;
  idle = refl;
  ready = λ present e. absurd (omega (arith, e));
  lba1 = λ n. refl;
  lba2 = λ n. refl;
}

abbrev bus : Bus
bus = record { reads = 0; outs = []; term = top }

disk_found : verdict answer 0x50 0 0 answer-Settled 9 0 ≡ 0
disk_found = refl

ide_identify-Identified_example : (b' : Bus) × Identified answer 0x50 0 0 answer-Settled 9 0 bus b'
ide_identify-Identified_example =
    ide_identify-Identified answer 0x50 0 0 answer-Settled 9 0 bus top-IsOnScreen

malloctest_prog-Tested_example :
    (x' : Machine) × (malloctest_prog (2 ^ 31) machine ≡ some (tt, x'))
    × Tested machine (used ∷ spare ∷ []) x'
malloctest_prog-Tested_example =
    malloctest_prog-Tested (2 ^ 31) machine (used ∷ spare ∷ []) two-IsHeap (omega arith)
      (omega arith)

abbrev handlers : HandlerTable
handlers = record {
  isr_stub_table = λ n. 0x200000;
  syscall_dispatch = 0x100010;
  div_by_zero = 0x100020;
  general_protection_fault = 0x100030;
  page_fault = 0x100040;
  pit_timer = 0x100050;
  ata_primary_bus = 0x100060;
  kb_interrupt = 0x100070;
}

handlers-Words : Words handlers
handlers-Words = record {
  stubs = λ n. omega arith;
  syscall = omega arith;
  division = omega arith;
  protection = omega arith;
  fault = omega arith;
  timer = omega arith;
  drive = omega arith;
  keyboard = omega arith;
}

all_gates-Handlers_example : Handlers handlers (all_gates handlers handlers-Words 0x5000 blank)
all_gates-Handlers_example = all_gates-Handlers handlers handlers-Words 0x5000 blank
