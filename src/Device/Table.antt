-- ===== src/Device/Table.antt =====
-- The table of devices: what devices_add enters.
use cookies_os.Base.{
  ℕ, ◌+◌, ◌-◌, ◌≤◌, ◌<◌, ◌≡◌, ◌≢◌, ◌⊎◌, refl, sym, ap, ◌∙◌, arith, some, List, [], ◌∷◌, ◌++◌, u32,
  write, write_at, write_off, codes,
}
use cookies_os.Libc.{memcpy}
use cookies_os.Libc.Copy.{memcpy_lem, moved}
use cookies_os.Libc.Strings.{IsText}
use cookies_os.Terminal.{term_write, int, str, hex_text}
use cookies_os.Machine.{Machine, copy_node, read_text, print, bytes_at, vfs_name_max}
use cookies_os.Machine.Names.{bind_some, read_text-some, print-some}
use cookies_os.Device.{devices_add, devices_at, added_message}

-- Two arrays for names do not overlap.
abbrev pub NamesApart : ℕ → ℕ → Type 0
NamesApart p q = (p + vfs_name_max ≤ q) ⊎ (q + vfs_name_max ≤ p)

-- `to` is a copy of the node `from`; nothing else changes.
pub record NodeCopied (x : Machine) (to from : ℕ) (x' : Machine) : Type 0 where
  pub name : (j : ℕ) → j < vfs_name_max → x'.mem (to + j) ≡ x.mem (from + j)
  pub fields : x'.nodes to ≡ x.nodes from
  pub bytes : (a : ℕ) → (a < to) ⊎ (to + vfs_name_max ≤ a) → x'.mem a ≡ x.mem a
  pub nodes : (a : ℕ) → a ≢ to → x'.nodes a ≡ x.nodes a

pub copied_node : Machine → ℕ → ℕ → Machine
copied_node x to from = record x {
  mem = memcpy x.mem to from vfs_name_max;
  nodes = write x.nodes to (x.nodes from);
}

pub copy_node_lem :
    (x : Machine) (to from : ℕ) → copy_node to from x ≡ some (tt, copied_node x to from)
unfolding copy_node copied_node
copy_node_lem x to from = refl

pub copied_node_fields :
    (x : Machine) (to from : ℕ) → (copied_node x to from).nodes to ≡ x.nodes from
unfolding copied_node
copied_node_fields x to from = write_at x.nodes to (x.nodes from) to refl

pub copied_node-NodeCopied :
    (x : Machine) (to from : ℕ) → NamesApart to from → NodeCopied x to from (copied_node x to from)
unfolding copied_node write
copied_node-NodeCopied x to from apart =
    let cell : (a : ℕ) → memcpy x.mem to from 55 a ≡ moved x.mem to from 55 a =
      λ a. memcpy_lem x.mem to from 55 a (ground (arith, apart)) in
    record {
      name = λ j lt.
          let index : to + j - to ≡ j = omega arith in
          cell (to + j) ∙ ground (arith, ap (λ k. x.mem (from + k)) index);
      fields = write_at x.nodes to (x.nodes from) to refl;
      bytes = λ a off. cell a ∙ ground (arith, off);
      nodes = λ a ne. write_off x.nodes to (x.nodes from) a (λ e. ne (sym e));
    }

-- What devices_add prints.
abbrev pub added_text : List ℕ → ℕ → List ℕ
added_text name n =
    codes "[DEVICES] Added new device "
    ++ (name ++ (codes ", on index " ++ (hex_text n 8 ++ (b'\n' ∷ []))))

-- What devices_add leaves.
pub record Added (x : Machine) (dev len n : ℕ) (x' : Machine) : Type 0 where
  pub number : x'.m_devices_number ≡ n + 1
  pub table : x'.m_devices ≡ x.m_devices
  pub entry : NodeCopied x (devices_at x n) dev x'
  pub printed :
      x'.term
      ≡ term_write x.term (added_text (bytes_at (copied_node x (devices_at x n) dev).mem dev len) n)
  pub heap : x'.heap ≡ x.heap
  pub mounts : x'.mounts ≡ x.mounts
  pub pages : x'.paging ≡ x.paging
  pub keys : x'.keyboard ≡ x.keyboard
  pub cut : x'.strtok_input ≡ x.strtok_input

-- devices_add of a node with a name of its own, apart from the next entry of a table that is not full (it has
-- room for 64 nodes), returns the number of devices so far. The entry with that number is a copy of the
-- node, the number is one more, and the message is on the screen; the other entries, the rest of the
-- memory, and every other part of the machine stay as they are.
pub devices_add-Added :
    (fuel : ℕ) (x : Machine) (dev len : ℕ)
    → IsText x.mem dev len
    → len < vfs_name_max
    → len < fuel
    → x.m_devices_number < 64
    → NamesApart (devices_at x x.m_devices_number) dev
    → (x' : Machine) × (devices_add fuel dev x ≡ some (x.m_devices_number, x'))
      × Added x dev len x.m_devices_number x'
unfolding devices_add copy_node copied_node
devices_add-Added fuel x dev len text short enough word apart =
    let n = x.m_devices_number in
    let at = devices_at x n in
    let copied = copied_node-NodeCopied x at dev apart in
    let mem = memcpy x.mem at dev vfs_name_max in
    let same : (j : ℕ) → j ≤ len → mem (dev + j) ≡ x.mem (dev + j) =
      λ j le. copied.bytes (dev + j) (ground (arith, apart)) in
    let text' : IsText mem dev len = record {
      ends = same len (omega arith) ∙ text.ends;
      inside = λ j lt. rw (same j (omega arith)) (text.inside j lt);
    } in
    let x1 = copied_node x at dev in
    let name = bytes_at mem dev len in
    let x2 = record x1 { term = term_write x.term (added_text name n) } in
    (
      record (copied_node x at dev) {
        term = term_write x.term (added_text name n);
        m_devices_number = u32 (n + 1);
      },
      bind_some (read_text fuel dev) _ x1 x1 name (read_text-some fuel x1 dev len text' enough)
          ∙ bind_some (print added_message (str name ∷ int n ∷ [])) _ x1 x2 tt
              (print-some x1 added_message (str name ∷ int n ∷ []) (added_text name n) refl),
      record {
        number = omega (arith, word);
        table = refl;
        entry = record {
          name = copied.name;
          fields = copied.fields;
          bytes = copied.bytes;
          nodes = copied.nodes;
        };
        printed = refl;
        heap = refl;
        mounts = refl;
        pages = refl;
        keys = refl;
        cut = refl;
      },
    )
