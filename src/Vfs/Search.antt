-- ===== src/Vfs/Search.antt =====
-- _find_relative_mount as a whole, with what the heap answers it.
use cookies_os.Base.{ℕ, ◌+◌, ◌-◌, ◌^◌, ◌<◌, ◌≡◌, ◌⊎◌, inl, refl, arith, ap, ◌∙◌, List, some, Mem}
use cookies_os.Libc.{strlen, memcpy}
use cookies_os.Libc.Strings.{IsText, strlen_iff}
use cookies_os.Libc.Copy.{memcpy_lem, moved}
use cookies_os.Kheap.{Kheap, malloc, free, Yell}
use cookies_os.Vfs.{Mounts, find_relative_mount}
use cookies_os.Vfs.Mount.{Held, Apart, Nearest, Lookup}
use cookies_os.Vfs.Shorten.{shorten_loop-Stopped}

copy-Held :
    (m : Mem) (path len : ℕ) (v : Mounts) (size : ℕ → ℕ) (p : ℕ)
    → IsText m path len
    → (path + len < p) ⊎ (p + len < path)
    → ((a : ℕ) → m a < 256)
    → Held m path len v size p len (memcpy m p path (len + 1))
copy-Held m path len v size p text clear bytes =
    let cell : (a : ℕ) → memcpy m p path (len + 1) a ≡ moved m p path (len + 1) a =
      λ a. memcpy_lem m p path (len + 1) a (ground (arith, clear)) in
    let at : (j : ℕ) → m (path + (p + j - p)) ≡ m (path + j) =
      λ j. ap (λ t. m (path + t)) (omega arith) in
    record {
      within = omega arith;
      prefix = λ j lt. cell (p + j) ∙ ground (arith, at j);
      ends = cell (p + len) ∙ ground (arith, at len, text.ends);
      outside = λ a far. cell a ∙ ground (arith, far);
      bytes = λ a. ground (arith, cell a, bytes a, bytes (path + (a - p)));
    }

-- On an absolute path that ends within the fuel, with a heap that gives and takes back a block apart
-- from the path, from "/" and from the paths of the mount points, _find_relative_mount returns the
-- mount point whose path is the longest of the path itself and of its parts that end in `/`, the
-- first if there are several, or 0 if there is none. It writes bytes, in the block only.
pub find_relative_mount-Nearest :
    (m : Mem) (path len : ℕ) (v : Mounts) (size : ℕ → ℕ)
    → (fuel p slash : ℕ) (h h1 h2 : Kheap) (yells : List Yell) → Apart m path len v size p path len
    → ((i : ℕ) → i < v.mount_count → Apart m path len v size p (v.mount_points i).path (size i))
    → ((i : ℕ) → i < v.mount_count → size i < fuel)
    → Apart m path len v size p slash 1
    → m slash ≡ b'/'
    → m path ≡ b'/'
    → 0 < len
    → len < fuel
    → len < 2 ^ 32
    → ((a : ℕ) → m a < 256)
    → malloc fuel h (len + 1) ≡ some (p, h1)
    → free fuel h1 p ≡ some (yells, h2)
    → (i : ℕ) × (m' : Mem) × (find_relative_mount fuel h m v slash path
        ≡ some (record { index = i; heap = h2; mem = m' }))
      × Nearest m path len v size len i
      × ((a : ℕ) → (a < p) ⊎ (p + len < a) → m' a ≡ m a)
      × ((a : ℕ) → m' a < 256)
unfolding find_relative_mount
find_relative_mount-Nearest m path len v size fuel p slash h h1 h2 yells own mounts short root
      root_byte absolute pos fits word bytes got freed =
    let look : Lookup m path len v size p slash fuel = record {
      text = own.text;
      mounts = mounts;
      short = short;
      root = root;
      root_byte = root_byte;
      absolute = absolute;
      fits = fits;
      word = word;
    } in
    let (out, found, stopped) =
      shorten_loop-Stopped m path len v size p slash fuel look fuel len (memcpy m p path (len + 1))
        pos (omega arith) (inl refl) (copy-Held m path len v size p own.text own.clear bytes) in
    let counted : strlen fuel m path ≡ some len = (strlen_iff m path fuel len fits).1 own.text in
    (
      out.0,
      out.1,
      rw (counted, find_relative_mount) (rw got (rw found (rw freed refl))),
      stopped.nearest,
      stopped.outside,
      stopped.bytes,
    )
