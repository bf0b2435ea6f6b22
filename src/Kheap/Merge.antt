-- ===== src/Kheap/Merge.antt =====
-- _merge_free_blocks.
use cookies_os.Base.{
  ℕ, zero, suc, ◌^◌, ◌≤◌, ◌<◌, ◌≡◌, ◌≢◌, inl, inr, refl, arith, false, Option, none, some, List, [],
  ◌∷◌, ◌==◌, if◌then◌else◌, length, Bool-cases, ◌∙◌,
}
use cookies_os.Kheap.{Kheap, merge_body, merge_end, merge_loop}
use cookies_os.Kheap.Blocks.{Block, stop, Describes, Chain, Ordered, last_of, merge_from, Became}
use cookies_os.Kheap.Join.{
  current_of, start, pending, merge_body-live, Merged, keep_live, next_run, Joined, join,
}

Became-after :
    {h h1 h' : Kheap} {d lo hi p : ℕ} {cs : List Block}
    → ((a : ℕ) → a < lo → h1.header a ≡ h.header a)
    → h1.curr_addr ≡ h.curr_addr
    → h1.frist_hh ≡ h.frist_hh
    → Became h1 h' d lo hi p cs
    → Became h h' d lo hi p cs
Became-after same curr frist w = record {
  chain = w.chain;
  ordered = w.ordered;
  below = λ a lt. w.below a lt ∙ same a lt;
  last = w.last;
  curr = w.curr ∙ curr;
  frist = w.frist ∙ frist;
}

merge_loop_step :
    (fuel p q q' : ℕ) (h h1 : Kheap)
    → merge_body p q h ≡ (q', h1)
    → merge_loop (suc fuel) p q h ≡ (
        if (h1.header p).next == 0
        then some (merge_end q' h1)
        else merge_loop fuel (h1.header p).next q' h1)
unfolding merge_loop
merge_loop_step fuel p q q' h h1 e = rw e

merge_from-live :
    (cur : Option Block) (b : Block) (bs : List Block)
    → b.freed ≡ 0
    → merge_from cur (b ∷ bs) ≡ pending cur (b ∷ merge_from none bs)
unfolding merge_from
merge_from-live none b bs e = ground arith
merge_from-live (some c) b bs e = ground arith

merge_from-free :
    (cur : Option Block) (b : Block) (bs : List Block)
    → b.freed ≢ 0
    → merge_from cur (b ∷ bs) ≡ merge_from (some (next_run cur b)) bs
unfolding merge_from
merge_from-free none b bs e = ground arith
merge_from-free (some c) b bs e = ground arith

run_at : (cur : Option Block) (b : Block) → (next_run cur b).at ≡ start cur b.at
run_at none b = refl
run_at (some c) b = refl

-- The block that the loop has reached.
record Reached (h : Kheap) (lo hi : ℕ) (b : Block) (bs : List Block) : Type 0 where
  here : Describes h.header b
  rest : Chain h.header (h.header b.at).next bs
  order : Ordered lo (b ∷ bs) hi

reach :
    (h : Kheap) (lo hi : ℕ) (cur : Option Block) (b : Block) (bs : List Block)
    → Ordered lo (pending cur (b ∷ bs)) hi
    → Chain h.header (start cur b.at) (pending cur (b ∷ bs))
    → Reached h lo hi b bs
reach h lo hi none b bs o c = record { here = c.1; rest = c.2; order = o }
reach h lo hi (some k) b bs o c = record {
  here = c.2.1;
  rest = c.2.2;
  order = (omega (arith, o), o.1.1);
}

-- At the last block the loop ends.
end_live :
    (d lo hi : ℕ) (h : Kheap) (cur : Option Block) (b : Block)
    → Ordered lo (pending cur (b ∷ [])) hi
    → Chain h.header (start cur b.at) (pending cur (b ∷ []))
    → h.last_hh ≡ b.at
    → Became h h d lo hi (start cur b.at) (pending cur (b ∷ []))
end_live d lo hi h none b o c l = record {
  chain = c;
  ordered = o;
  below = λ a lt. refl;
  last = l;
  curr = refl;
  frist = refl;
}
end_live d lo hi h (some k) b o c l = record {
  chain = c;
  ordered = o;
  below = λ a lt. refl;
  last = l;
  curr = refl;
  frist = refl;
}

end_free :
    (d lo hi : ℕ) (h h1 : Kheap) (cur : Option Block) (b : Block)
    → 1 ≤ lo
    → Joined h h1 lo hi cur b []
    → Became h (merge_end (next_run cur b).at h1) d lo hi (next_run cur b).at (next_run cur b ∷ [])
unfolding merge_end
end_free d lo hi h h1 cur b pos j =
    let t : ((next_run cur b).at == 0) ≡ false = ground (arith, j.ordered) in
    rw t (record {
      chain = j.chain;
      ordered = j.ordered;
      below = j.below;
      last = refl;
      curr = j.curr;
      frist = j.frist;
    })

-- From the block `b` on, the loop ends, and the list is what `merge_from` makes of it.
pub merge_loop-Merged :
    (fuel d lo hi : ℕ) (h : Kheap) (cur : Option Block) (b : Block) (bs : List Block)
    → length bs < fuel
    → Ordered lo (pending cur (b ∷ bs)) hi
    → Chain h.header (start cur b.at) (pending cur (b ∷ bs))
    → hi ≤ 2 ^ 31
    → 1 ≤ lo
    → h.last_hh ≡ last_of b.at bs
    → Merged h d lo hi
        (start cur b.at)
        (merge_from cur (b ∷ bs))
        (merge_loop fuel b.at (current_of cur) h)
merge_loop-Merged zero d lo hi h cur b bs f o c small pos l = absurd (omega arith)
merge_loop-Merged (suc fuel) d lo hi h cur b [] f o c small pos l =
    let r = reach h lo hi cur b [] o c in
    elim (Bool-cases (b.freed == 0)) [
      | inl live ↦
          let zero_freed : b.freed ≡ 0 = ground arith in
          let body = merge_body-live h (current_of cur) b.at (r.here.freed ∙ zero_freed) in
          rw
            (
              merge_loop_step fuel b.at (current_of cur) 0 h h body,
              merge_from-live cur b [] zero_freed,
            )
            (h, unfold merge_end in rw r.rest, unfold merge_from in end_live d lo hi h cur b o c l)
      | inr run ↦
          let free : b.freed ≢ 0 = ground arith in
          let (h1, j) = join h lo hi b [] small pos free cur o c in
          rw
            (
              merge_loop_step fuel b.at (current_of cur) (next_run cur b).at h h1 j.body,
              merge_from-free cur b [] free,
              ← run_at cur b,
            )
            (
              merge_end (next_run cur b).at h1,
              rw (j.next, r.rest),
              unfold merge_from in end_free d lo hi h h1 cur b pos j,
            )
    ]
merge_loop-Merged (suc fuel) d lo hi h cur b (b' ∷ bs) f o c small pos l =
    let r = reach h lo hi cur b (b' ∷ bs) o c in
    let some_next : (b'.at == 0) ≡ false = ground (arith, r.order) in
    elim (Bool-cases (b.freed == 0)) [
      | inl live ↦
          let zero_freed : b.freed ≡ 0 = ground arith in
          let body = merge_body-live h (current_of cur) b.at (r.here.freed ∙ zero_freed) in
          rw
            (
              merge_loop_step fuel b.at (current_of cur) 0 h h body,
              merge_from-live cur b (b' ∷ bs) zero_freed,
              r.rest.0,
              some_next,
            )
            (keep_live h d lo hi b r.here cur b'.at (b' ∷ bs) _ _ o c r.rest.0 (
              merge_loop-Merged fuel b.at (stop b) hi h none b' bs (omega arith) r.order.1
                (refl, r.rest.1, r.rest.2) small (omega (arith, r.order)) l))
      | inr run ↦
          let free : b.freed ≢ 0 = ground arith in
          let (h1, j) = join h lo hi b (b' ∷ bs) small pos free cur o c in
          let (h', got, w) =
            merge_loop-Merged fuel d lo hi h1 (some (next_run cur b)) b' bs (omega arith) j.ordered
              j.chain small pos (j.last ∙ l) in
          rw
            (
              merge_loop_step fuel b.at (current_of cur) (next_run cur b).at h h1 j.body,
              merge_from-free cur b (b' ∷ bs) free,
              ← run_at cur b,
              j.next,
              r.rest.0,
              some_next,
            )
            (h', got, Became-after j.below j.curr j.frist w)
    ]
