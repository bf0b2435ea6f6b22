-- ===== src/Devfs/Listing.antt =====
-- devfs_read_dir: the names that are listed.
use cookies_os.Base.{
  ℕ, ◌+◌, ◌-◌, ◌≤◌, ◌<◌, ◌≡◌, ◌⊎◌, refl, ap, ◌∙◌, arith, true, false, ltb, some, pos,
}
use cookies_os.Libc.{memcpy}
use cookies_os.Libc.Copy.{memcpy_lem, moved}
use cookies_os.Libc.Strings.{IsText, strlen_iff}
use cookies_os.Machine.{Machine}
use cookies_os.Machine.Names.{bind_some}
use cookies_os.Device.{devices_at}
use cookies_os.Devfs.{devfs_read_dir, read_strlen}

-- The name at `name`, of `len` bytes, is at `dirent` without its terminator.
pub record Listed (x : Machine) (name len dirent : ℕ) (x' : Machine) : Type 0 where
  pub bytes : (j : ℕ) → j < len → x'.mem (dirent + j) ≡ x.mem (name + j)
  pub others : (a : ℕ) → (a < dirent) ⊎ (dirent + len ≤ a) → x'.mem a ≡ x.mem a

-- devfs_read_dir lists the device with each index up to the number of devices, that number included,
-- for which no device is there: it copies the name without its terminator, so the byte behind it is
-- what it was. For any larger index it returns 1 and changes nothing.
pub devfs_read_dir-Listed :
    (fuel : ℕ) (x : Machine) (index dirent len : ℕ)
    → IsText x.mem (devices_at x index) len
    → len < fuel
    → (dirent + len ≤ devices_at x index) ⊎ (devices_at x index + len ≤ dirent)
    → (index ≤ x.m_devices_number
        → (x' : Machine) × (devfs_read_dir fuel index dirent x ≡ some (pos 0, x'))
          × Listed x (devices_at x index) len dirent x')
      × (x.m_devices_number < index → devfs_read_dir fuel index dirent x ≡ some (pos 1, x))
unfolding devfs_read_dir
devfs_read_dir-Listed fuel x index dirent len text enough apart =
    let name = devices_at x index in
    let counted : read_strlen fuel name x ≡ some (len, x) =
      rw ((strlen_iff x.mem name fuel len enough).1 text, read_strlen) refl in
    let cell : (a : ℕ) → memcpy x.mem dirent name len a ≡ moved x.mem dirent name len a =
      λ a. memcpy_lem x.mem dirent name len a (ground (arith, apart)) in
    (
      λ within.
          let listed : ltb x.m_devices_number index ≡ false = ground arith in
          (
            record x { mem = memcpy x.mem dirent name len },
            rw listed (bind_some (read_strlen fuel name) _ x x len counted),
            record {
              bytes = λ j lt.
                  let at : dirent + j - dirent ≡ j = omega arith in
                  cell (dirent + j) ∙ ground (arith, ap (λ k. x.mem (name + k)) at);
              others = λ a off. cell a ∙ ground (arith, off);
            },
          ),
      λ past. let refused : ltb x.m_devices_number index ≡ true = ground arith in rw refused refl,
    )
