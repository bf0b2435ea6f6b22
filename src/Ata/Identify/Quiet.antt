-- ===== src/Ata/Identify/Quiet.antt =====
-- Steps that write to no port, and those of the identification on a drive whose answers are settled.
use cookies_os.Base.{
  ℕ, zero, suc, ◌+◌, ◌≡◌, ◌≢◌, sym, refl, ap, ◌∙◌, arith, true, bit_and, ◌==◌, some, [], codes,
}
use cookies_os.Terminal.Screen.{IsOnScreen}
use cookies_os.Terminal.Yell.{yell-Yelled}
use cookies_os.Ata.{ata_primary_io}
use cookies_os.Ata.Identify.{
  Bus, Io, ◌>>=◌, ret, input, ata_status_bsy, ata_status_rdy, ata_reg_status, ata_delay400ns,
  ata_wait_bsy, ata_wait_drq, complain, status_loop, data_loop,
}
use cookies_os.Ata.Identify.Waits.{status_at, ata_wait_bsy-FirstClear, ata_wait_drq-ready}

-- A step that returns `a` and writes to no port.
pub record Quiet {A : Type 0} (m : Io A) (b : Bus) (a : A) : Type 0 where
  pub next : Bus
  pub runs : m b ≡ some (a, next)
  pub outs : next.outs ≡ b.outs
  pub on : IsOnScreen next.term

pub Quiet-bind :
    {A B : Type 0} (m : Io A) (f : A → Io B) (b : Bus) (a : A) (r : B)
    → Quiet m b a
    → ((b' : Bus) → IsOnScreen b'.term → Quiet (f a) b' r)
    → Quiet (m >>= f) b r
Quiet-bind m f b a r first second_of =
    let second = second_of first.next first.on in
    record {
      next = second.next;
      runs = rw (first.runs, ◌>>=◌) second.runs;
      outs = second.outs ∙ first.outs;
      on = second.on;
    }

pub Quiet-ret : {A : Type 0} (b : Bus) (a : A) → IsOnScreen b.term → Quiet (ret a) b a
Quiet-ret b a on = record { next = b; runs = refl; outs = refl; on = on }

-- The drive answers each read of the status with `s`, which is not busy, and ready unless it is 0; `mid`
-- and `hi` stand in the address registers.
pub record Settled (answer : ℕ → ℕ → ℕ) (s mid hi : ℕ) : Type 0 where
  pub status : (n : ℕ) → status_at answer n ≡ s
  pub idle : bit_and s ata_status_bsy ≡ 0
  pub ready : s ≢ 0 → bit_and s ata_status_rdy ≢ 0
  pub lba1 : (n : ℕ) → answer (ata_primary_io + 4) n ≡ mid
  pub lba2 : (n : ℕ) → answer (ata_primary_io + 5) n ≡ hi

module _ (answer : ℕ → ℕ → ℕ) (s mid hi : ℕ) (settled : Settled answer s mid hi) where
  pub input-Quiet :
      (port : ℕ) (b : Bus) → IsOnScreen b.term → Quiet (input answer port) b (answer port b.reads)
  input-Quiet port b on = record {
    next = record b { reads = b.reads + 1 };
    runs = refl;
    outs = refl;
    on = on;
  }

  pub status-Quiet :
      (b : Bus) → IsOnScreen b.term → Quiet (input answer (ata_primary_io + ata_reg_status)) b s
  status-Quiet b on = record {
    next = record b { reads = b.reads + 1 };
    runs = ap (λ k. some (k, record b { reads = b.reads + 1 })) (settled.status b.reads);
    outs = refl;
    on = on;
  }

  pub delay-Quiet : (b : Bus) → IsOnScreen b.term → Quiet (ata_delay400ns answer) b tt
  unfolding ata_delay400ns
  delay-Quiet b on = record {
    next = record b { reads = b.reads + 1 + 1 + 1 + 1 };
    runs = refl;
    outs = refl;
    on = on;
  }

  pub wait_bsy-Quiet :
      (fuel : ℕ) (b : Bus) → IsOnScreen b.term → Quiet (ata_wait_bsy answer (suc fuel)) b tt
  wait_bsy-Quiet fuel b on = record {
    next = record b { reads = b.reads + 1 };
    runs =
        ata_wait_bsy-FirstClear answer (suc fuel) b.reads b
          (record {
            from = omega arith;
            before = λ k low high. absurd (omega arith);
            clear = ap (λ k. bit_and k ata_status_bsy) (settled.status b.reads) ∙ settled.idle;
          })
          (omega arith);
    outs = refl;
    on = on;
  }

  pub wait_drq-Quiet :
      (fuel : ℕ) (b : Bus) → s ≢ 0 → IsOnScreen b.term → Quiet (ata_wait_drq answer (suc fuel)) b tt
  wait_drq-Quiet fuel b present on = record {
    next = record b { reads = b.reads + 1 };
    runs = ata_wait_drq-ready answer fuel b (λ e.
        settled.ready present
          (ap (λ k. bit_and k ata_status_rdy) (sym (settled.status b.reads)) ∙ e));
    outs = refl;
    on = on;
  }

  pub status_loop-Quiet :
      (fuel : ℕ) (b : Bus) → IsOnScreen b.term → Quiet (status_loop answer (suc fuel) s) b s
  unfolding status_loop
  status_loop-Quiet fuel b on =
      let done : bit_and s ata_status_bsy == 0 ≡ true = ground (arith, settled.idle) in
      rw done (Quiet-ret b s on)

  pub data_loop-Quiet :
      (left : ℕ) (b : Bus) → IsOnScreen b.term → Quiet (data_loop answer left) b tt
  unfolding data_loop
  data_loop-Quiet zero b on = Quiet-ret b tt on
  data_loop-Quiet (suc left) b on =
      Quiet-bind (input answer ata_primary_io) (λ v. data_loop answer left) b
        (answer ata_primary_io b.reads) tt (input-Quiet ata_primary_io b on) (data_loop-Quiet left)

  pub complain-Quiet :
      (b : Bus) → IsOnScreen b.term → Quiet (complain answer (codes "ata device faliure")) b tt
  unfolding complain
  complain-Quiet b on =
      let (t', said, y) =
        yell-Yelled b.term (codes "ata device faliure") [] (codes "ata device faliure") on refl in
      record {
        next = record b { term = t' };
        runs = rw (said, complain) refl;
        outs = refl;
        on = y.on;
      }
