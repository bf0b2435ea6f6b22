-- ===== src/Shell.antt =====
-- src/kernel/kernel.c: mini_shell, the line editor and the commands. `input_buffer` is the address of
-- the array of 255 bytes on the stack, and `shell_prog_names` the addresses of the names.
pub mod Line
pub mod Command
use cookies_os.Base.{
  ℕ, zero, suc, ◌+◌, ◌-◌, ◌==◌, if◌then◌else◌, Option, none, some, List, [], ◌∷◌, Mem, write, u8,
  pos, codes,
}
use cookies_os.Libc.{memcmp}
use cookies_os.Terminal.{Term, term_putchar, term_write, term_setcolor, vga_color_light_grey}

abbrev pub vga_color_light_red : ℕ
vga_color_light_red = 12

-- The functions that mini_shell enters.
pub data Program : Type 0 where
  help_prog helloworld_prog ataread_prog malloctest_prog crashme_prog : Program
  fatreader_prog runinit_prog syscalltest_prog devfstest_prog cls_prog : Program

pub record Programs : Type 0 where
  pub shell_prog_ptr : ℕ → Program
  pub shell_prog_names : ℕ → ℕ
  pub shell_prog_size : ℕ

unfoldable pub mini_shell_add_entry : Programs → Program → ℕ → Programs
unfolding write
mini_shell_add_entry ps prog prog_name = record {
  shell_prog_ptr = write ps.shell_prog_ptr ps.shell_prog_size prog;
  shell_prog_names = write ps.shell_prog_names ps.shell_prog_size prog_name;
  shell_prog_size = ps.shell_prog_size + 1;
}

-- '\b'.
abbrev pub backspace_key : ℕ
backspace_key = 8

abbrev pub mini_shell_prefix : List ℕ
mini_shell_prefix = codes ">> "

pub record Shell : Type 0 where
  pub term : Term
  pub mem : Mem
  pub input_index : ℕ

-- `for(int i=0; i<input_index; ++i) term_putchar(input_buffer[i]);`
pub echo_loop : Mem → ℕ → ℕ → ℕ → Term → Term
echo_loop m input_buffer zero i t = t
echo_loop m input_buffer (suc left) i t =
    echo_loop m input_buffer left (i + 1) (term_putchar t (m (input_buffer + i)))

-- `case '\b'`.
unfoldable pub backspace : ℕ → Shell → Shell
unfolding echo_loop
backspace input_buffer s =
    let index = s.input_index - 1 in
    let prompt = term_write (term_putchar s.term b'\n') mini_shell_prefix in
    if s.input_index == 0
    then s
    else record s { input_index = index; term = echo_loop s.mem input_buffer index 0 prompt }

-- Behind the `switch`. `input_index` is a `uint8_t`.
unfoldable pub type_char : ℕ → Shell → ℕ → Shell
unfolding write
type_char input_buffer s ch = record {
  term = term_putchar s.term ch;
  mem = write s.mem (input_buffer + s.input_index) ch;
  input_index = u8 (s.input_index + 1);
}

-- The loop over the programs: the entry whose name compares equal over `input_index` bytes.
unfoldable pub command_loop : Mem → Programs → ℕ → ℕ → ℕ → ℕ → Option ℕ
command_loop m ps input_buffer input_index zero i = none
command_loop m ps input_buffer input_index (suc left) i =
    let rest = command_loop m ps input_buffer input_index left (i + 1) in
    elim (memcmp m input_buffer (ps.shell_prog_names i) input_index) [
      | pos zero ↦ some i
      | _ ↦ rest
    ]

-- What a program does to the screen and to the memory, by `callback()`.
abbrev pub Callback : Type 0
Callback = Program → Term × Mem → Term × Mem

-- Behind that loop: the program that was found, or the error.
unfoldable pub parse_found : Callback → Programs → Shell → Option ℕ → Shell
parse_found callback ps s (some i) =
    let (t, m) = callback (ps.shell_prog_ptr i) (s.term, s.mem) in record s { term = t; mem = m }
parse_found callback ps s none =
    let red = term_setcolor s.term vga_color_light_red in
    let said = term_write red (codes "Input error!") in
    record s { term = term_setcolor said vga_color_light_grey }

-- From `parse_input` to `parse_quit`.
unfoldable pub parse_input : Callback → Programs → ℕ → Shell → Shell
unfolding command_loop parse_found
parse_input callback ps input_buffer s =
    parse_found callback ps s
      (command_loop s.mem ps input_buffer s.input_index ps.shell_prog_size 0)

-- From `parse_quit` on.
unfoldable pub parse_quit : Shell → Shell
parse_quit s = record s {
  term = term_write (term_putchar s.term b'\n') mini_shell_prefix;
  input_index = 0;
}

-- The body of the loop, for one byte of kb_wait_get.
unfoldable pub shell_step : Callback → Programs → ℕ → Shell → ℕ → Shell
shell_step callback ps input_buffer s ch =
    if ch == backspace_key
    then backspace input_buffer s
    else if ch == b'\n'
    then parse_quit
        (parse_input callback ps input_buffer (record s { term = term_putchar s.term b'\n' }))
    else type_char input_buffer s ch

-- The loop, over the bytes that are typed.
unfoldable pub shell_loop : Callback → Programs → ℕ → Shell → List ℕ → Shell
shell_loop callback ps input_buffer s [] = s
shell_loop callback ps input_buffer s (ch ∷ chs) =
    shell_loop callback ps input_buffer (shell_step callback ps input_buffer s ch) chs

abbrev pub no_programs : Programs
no_programs = record {
  shell_prog_ptr = λ i. help_prog;
  shell_prog_names = λ i. 0;
  shell_prog_size = 0;
}

-- The entries, in order. `name` is the address of each name.
unfoldable pub mini_shell_entries : (Program → ℕ) → Programs
mini_shell_entries name =
    let add = λ (ps : Programs) (p : Program). mini_shell_add_entry ps p (name p) in
    let first = add (add (add no_programs help_prog) helloworld_prog) ataread_prog in
    let second = add (add (add first malloctest_prog) crashme_prog) fatreader_prog in
    add (add (add (add second runinit_prog) syscalltest_prog) devfstest_prog) cls_prog

-- The start of mini_shell, before the first byte is read.
unfoldable pub mini_shell_start : Term → Mem → Shell
mini_shell_start t m =
    let said = term_write t (
      codes
        "running the build-in shell!\ntype 'init' to rerun init program\ntype 'help' to see other commands\n") in
    record { term = term_write said mini_shell_prefix; mem = m; input_index = 0 }
