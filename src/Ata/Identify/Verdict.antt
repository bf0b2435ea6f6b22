-- ===== src/Ata/Identify/Verdict.antt =====
-- What the identification makes of a drive whose answers are settled.
use cookies_os.Base.{
  ℕ, suc, ◌+◌, ◌≡◌, ◌≢◌, inl, inr, Bool-cases, refl, ap, ◌∙◌, arith, bit_and, ◌==◌, ◌||◌, not,
  if◌then◌else◌, some, List, [], ◌∷◌, ◌++◌, codes,
}
use cookies_os.Pic.{Out, outb}
use cookies_os.Terminal.Screen.{IsOnScreen}
use cookies_os.Ata.{ata_primary_io}
use cookies_os.Ata.Identify.{
  Bus, Io, ◌>>=◌, ◌>>◌, ret, input, ata_status_err, ata_reg_status, ata_com_identify, ata_master_hd,
  ata_err_bus_fetch, ata_err_drive_fetch, ata_delay400ns, ata_wait_bsy, ata_wait_drq, ata_poll,
  complain, status_loop, data_loop, identify_command, identify_drive, ide_identify,
}
use cookies_os.Ata.Identify.Quiet.{
  Quiet, Quiet-bind, Quiet-ret, Settled, status-Quiet, delay-Quiet, wait_bsy-Quiet, wait_drq-Quiet,
  status_loop-Quiet, data_loop-Quiet, complain-Quiet,
}

bind_runs :
    {A B : Type 0} (m : Io A) (f : A → Io B) (b b' : Bus) (a : A)
    → m b ≡ some (a, b')
    → (m >>= f) b ≡ f a b'
bind_runs m f b b' a e = rw (e, ◌>>=◌) refl

six :
    (l : List Out) (o1 o2 o3 o4 o5 o6 : Out)
    → (((((l ++ (o1 ∷ [])) ++ (o2 ∷ [])) ++ (o3 ∷ [])) ++ (o4 ∷ [])) ++ (o5 ∷ [])) ++ (o6 ∷ [])
      ≡ l ++ (o1 ∷ o2 ∷ o3 ∷ o4 ∷ o5 ∷ o6 ∷ [])
six [] o1 o2 o3 o4 o5 o6 = refl
six (o ∷ l) o1 o2 o3 o4 o5 o6 = ap (λ k. o ∷ k) (six l o1 o2 o3 o4 o5 o6)

module _ (answer : ℕ → ℕ → ℕ) (s mid hi : ℕ) (settled : Settled answer s mid hi)
    (fuel eax : ℕ) where
  -- Step `m`, and what follows it, on any later bus.
  step :
      {A B : Type 0} (m : Io A) (f : A → Io B) (a : A) (r : B)
      → ((b : Bus) → IsOnScreen b.term → Quiet m b a)
      → ((b : Bus) → IsOnScreen b.term → Quiet (f a) b r)
      → (b : Bus) → IsOnScreen b.term
      → Quiet (m >>= f) b r
  step m f a r first next b on = Quiet-bind m f b a r (first b on) next

  abbrev poll_verdict : ℕ
  poll_verdict = if bit_and eax ata_status_err == 0 then 0 else 1

  poll_end :
      (b : Bus)
      → IsOnScreen b.term
      → Quiet
          (if bit_and eax ata_status_err == 0
            then ret 0
            else (do complain answer (codes "ata device faliure"); ret 1))
          b
          poll_verdict
  poll_end b on = elim (Bool-cases (bit_and eax ata_status_err == 0)) [
    | inl fine ↦ rw fine (Quiet-ret b 0 on)
    | inr bad ↦ rw bad (
        step (complain answer (codes "ata device faliure")) _ tt 1
          (complain-Quiet answer s mid hi settled) (λ b' on'. Quiet-ret b' 1 on') b on)
  ]

  poll-Quiet :
      s ≢ 0 → (b : Bus) → IsOnScreen b.term → Quiet (ata_poll answer (suc fuel) eax) b poll_verdict
  unfolding ata_poll
  poll-Quiet present =
      step (ata_delay400ns answer) _ tt poll_verdict (delay-Quiet answer s mid hi settled) (
        step (ata_wait_bsy answer (suc fuel)) _ tt poll_verdict
          (wait_bsy-Quiet answer s mid hi settled fuel)
          (step (ata_wait_drq answer (suc fuel)) _ tt poll_verdict
            (λ b on. wait_drq-Quiet answer s mid hi settled fuel b present on) poll_end))

  known-Quiet :
      (port v : ℕ)
      → ((n : ℕ) → answer port n ≡ v)
      → (b : Bus) → IsOnScreen b.term
      → Quiet (input answer port) b v
  known-Quiet port v known b on = record {
    next = record b { reads = b.reads + 1 };
    runs = ap (λ k. some (k, record b { reads = b.reads + 1 })) (known b.reads);
    outs = refl;
    on = on;
  }

  -- What is returned for a drive that is there.
  abbrev pub drive_verdict : ℕ
  drive_verdict =
      if not (mid == 0) || not (hi == 0)
      then ata_err_drive_fetch
      else if bit_and eax ata_status_err == 0
      then 0
      else ata_err_drive_fetch

  found : Io ℕ
  found = do ata_wait_bsy answer (suc fuel); data_loop answer 256; ret 0

  found-Quiet : (b : Bus) → IsOnScreen b.term → Quiet found b 0
  unfolding found
  found-Quiet =
      step (ata_wait_bsy answer (suc fuel)) _ tt 0 (wait_bsy-Quiet answer s mid hi settled fuel) (
        step (data_loop answer 256) _ tt 0 (data_loop-Quiet answer s mid hi settled 256)
          (λ b on. Quiet-ret b 0 on))

  -- Behind the poll.
  polled_end : (v : ℕ) → Io ℕ
  polled_end v = if v == 0 then found else ret ata_err_drive_fetch

  polled_end-Quiet :
      (b : Bus)
      → IsOnScreen b.term
      → Quiet
          (polled_end poll_verdict)
          b
          (if bit_and eax ata_status_err == 0 then 0 else ata_err_drive_fetch)
  unfolding polled_end
  polled_end-Quiet b on = elim (Bool-cases (bit_and eax ata_status_err == 0)) [
    | inl fine ↦ rw fine (found-Quiet b on)
    | inr bad ↦ rw bad (Quiet-ret b ata_err_drive_fetch on)
  ]

  addressed : ℕ → ℕ → Io ℕ
  addressed v w =
      if not (v == 0) || not (w == 0)
      then ret ata_err_drive_fetch
      else (ata_poll answer (suc fuel) eax >>= polled_end)

  addressed-Quiet : s ≢ 0 → (b : Bus) → IsOnScreen b.term → Quiet (addressed mid hi) b drive_verdict
  unfolding addressed
  addressed-Quiet present b on = elim (Bool-cases (not (mid == 0) || not (hi == 0))) [
    | inl other ↦ rw other (Quiet-ret b ata_err_drive_fetch on)
    | inr disk ↦ rw disk (
        step (ata_poll answer (suc fuel) eax) polled_end poll_verdict
          (if bit_and eax ata_status_err == 0 then 0 else ata_err_drive_fetch) (poll-Quiet present)
          polled_end-Quiet b on)
  ]

  identify_drive-Quiet :
      s ≢ 0
      → (b : Bus) → IsOnScreen b.term
      → Quiet (identify_drive answer (suc fuel) eax) b drive_verdict
  unfolding identify_drive addressed polled_end found
  identify_drive-Quiet present =
      step (input answer (ata_primary_io + 4))
        (λ v. input answer (ata_primary_io + 5) >>= addressed v) mid drive_verdict
        (known-Quiet (ata_primary_io + 4) mid settled.lba1)
        (step (input answer (ata_primary_io + 5)) (addressed mid) hi drive_verdict
          (known-Quiet (ata_primary_io + 5) hi settled.lba2) (addressed-Quiet present))

  abbrev pub verdict : ℕ
  verdict = if s == 0 then ata_err_bus_fetch else drive_verdict

  presence : ℕ → Io ℕ
  presence v =
      if v == 0
      then ret ata_err_bus_fetch
      else (do ata_wait_bsy answer (suc fuel); identify_drive answer (suc fuel) eax)

  presence-Quiet : (b : Bus) → IsOnScreen b.term → Quiet (presence s) b verdict
  unfolding presence
  presence-Quiet b on = elim (Bool-cases (s == 0)) [
    | inl absent ↦ rw absent (Quiet-ret b ata_err_bus_fetch on)
    | inr present ↦
        let here : s ≢ 0 = λ e. ground (arith, present) in
        rw present (
          step (ata_wait_bsy answer (suc fuel)) _ tt drive_verdict
            (wait_bsy-Quiet answer s mid hi settled fuel) (identify_drive-Quiet here) b on)
  ]

  -- What the identification of a drive leaves: its answer, and the bytes sent.
  pub record Identified (b b' : Bus) : Type 0 where
    pub answered : ide_identify answer (suc fuel) eax b ≡ some (verdict, b')
    pub sent :
        b'.outs
        ≡ b.outs
          ++ (outb (ata_primary_io + 6) ata_master_hd
              ∷ outb (ata_primary_io + 2) 0
              ∷ outb (ata_primary_io + 3) 0
              ∷ outb (ata_primary_io + 4) 0
              ∷ outb (ata_primary_io + 5) 0
              ∷ outb (ata_primary_io + 7) ata_com_identify
              ∷ [])
    pub on : IsOnScreen b'.term

  asked : Bus → Bus
  asked b = record b {
    outs =
        b.outs
        ++ (outb (ata_primary_io + 6) ata_master_hd
            ∷ outb (ata_primary_io + 2) 0
            ∷ outb (ata_primary_io + 3) 0
            ∷ outb (ata_primary_io + 4) 0
            ∷ outb (ata_primary_io + 5) 0
            ∷ outb (ata_primary_io + 7) ata_com_identify
            ∷ []);
  }

  command_lem : (b : Bus) → identify_command answer b ≡ some (tt, asked b)
  unfolding identify_command asked
  command_lem b = ap (λ l. some (tt, record b { outs = l })) (six b.outs _ _ _ _ _ _)

  behind_status : ℕ → Io ℕ
  behind_status v = status_loop answer (suc fuel) v >>= λ status.
      ata_wait_bsy answer (suc fuel) >> presence status

  after_command : Io ℕ
  after_command = input answer (ata_primary_io + ata_reg_status) >>= λ first.
      ata_delay400ns answer >> behind_status first

  after_command-Quiet : (b : Bus) → IsOnScreen b.term → Quiet after_command b verdict
  unfolding after_command behind_status
  after_command-Quiet =
      step (input answer (ata_primary_io + ata_reg_status))
        (λ first. ata_delay400ns answer >> behind_status first) s verdict
        (status-Quiet answer s mid hi settled)
        (step (ata_delay400ns answer) (λ u. behind_status s) tt verdict
          (delay-Quiet answer s mid hi settled)
          (step (status_loop answer (suc fuel) s)
            (λ status. ata_wait_bsy answer (suc fuel) >> presence status) s verdict
            (status_loop-Quiet answer s mid hi settled fuel)
            (step (ata_wait_bsy answer (suc fuel)) (λ u. presence s) tt verdict
              (wait_bsy-Quiet answer s mid hi settled fuel) presence-Quiet)))

  -- With a drive whose answers are settled and the cursor on the screen, the identification ends and
  -- answers 0 for a disk, 255 when the status is 0, and 254 when an address register is not 0 or the poll
  -- fails. It sends the six bytes of the command and no others.
  pub ide_identify-Identified : (b : Bus) → IsOnScreen b.term → (b' : Bus) × Identified b b'
  unfolding ide_identify asked after_command behind_status presence
  ide_identify-Identified b on =
      let q = after_command-Quiet (asked b) on in
      (
        q.next,
        record {
          answered =
              bind_runs (identify_command answer) (λ u. after_command) b (asked b) tt
                (command_lem b)
              ∙ q.runs;
          sent = q.outs;
          on = q.on;
        },
      )
