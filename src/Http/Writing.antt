-- ===== src/Http/Writing.antt =====
-- `writen` of httpserver/main.cpp: how much of its buffer reaches the kernel.
use learning_directory.Base.{
  ℕ, zero, suc, ◌≡◌, ◌≢◌, ◌≤◌, ◌⊎◌, inl, inr, refl, sym, ap, ◌∙◌, List, [], ◌∷◌, ◌++◌, append_assoc,
  Option, none, some, Bytes, nat_eq, length, take, drop, length-drop, take-append-drop, arith, All,
}
use learning_directory.Base.Int.{ℤ, pos, negsuc}
use learning_directory.Http.Transfer.{Written, more, writen_loop, writen}

-- What has been sent, and what has not, are the buffer; the value is the length asked for, with
-- nothing left, or a value of `write` that is not positive, with something left.
abbrev pub Sends : ℕ → Bytes → Option Written → Type 0
Sends n left none = Unit
Sends n left (some r) =
    (rest : Bytes) × (left ≡ r.sent ++ rest)
    × (((rest ≡ []) × (r.value ≡ pos n))
        ⊎ ((rest ≢ []) × ((r.value ≡ pos 0) ⊎ ((e : ℕ) × (r.value ≡ negsuc e)))))

Sends-more :
    (n k : ℕ) (left : Bytes) (o : Option Written)
    → Sends n (drop k left) o
    → Sends n left (more (take k left) o)
Sends-more n k left none h = tt
Sends-more n k left (some r) (rest, e, why) = (
  rest,
  sym (take-append-drop k left)
      ∙ ap (◌++◌ (take k left)) e
      ∙ sym (append_assoc (take k left) r.sent rest),
  why,
)

writen_loop-Sends : (n : ℕ) (left : Bytes) (rs : List ℤ) → Sends n left (writen_loop n left rs)
unfolding writen_loop
writen_loop-Sends n [] rs = ([], refl, inl (refl, refl))
writen_loop-Sends n (c ∷ cs) [] = tt
writen_loop-Sends n (c ∷ cs) (negsuc e ∷ rs) = (c ∷ cs, refl, inr (λ h. cc, inr (e, refl)))
writen_loop-Sends n (c ∷ cs) (pos zero ∷ rs) = (c ∷ cs, refl, inr (λ h. cc, inl refl))
writen_loop-Sends n (c ∷ cs) (pos (suc k) ∷ rs) =
    Sends-more n (suc k) (c ∷ cs) (writen_loop n (drop (suc k) (c ∷ cs)) rs)
      (writen_loop-Sends n (drop (suc k) (c ∷ cs)) rs)

-- If `writen` returns, it has handed a prefix of its buffer to the kernel. Either nothing is left
-- and the value is the length of the buffer, or something is left and the value is not positive.
pub writen-Sends : (vptr : Bytes) (rs : List ℤ) → Sends (length vptr) vptr (writen vptr rs)
unfolding writen
writen-Sends vptr rs = writen_loop-Sends (length vptr) vptr rs

-- The answers of a kernel that takes at least one byte each time.
abbrev pub Takes : ℤ → Type 0
Takes r = (k : ℕ) × (r ≡ pos (suc k))

writen_loop_total :
    (n : ℕ) (left : Bytes) (rs : List ℤ)
    → All Takes rs
    → length left ≤ length rs
    → writen_loop n left rs ≡ some (record { sent = left; value = pos n })
unfolding writen_loop
writen_loop_total n [] rs t h = refl
writen_loop_total n (c ∷ cs) [] t h = absurd (omega arith)
writen_loop_total n (c ∷ cs) (negsuc e ∷ rs) t h = absurd (let q = t.0.1 in ground arith)
writen_loop_total n (c ∷ cs) (pos zero ∷ rs) t h = absurd (let q = t.0.1 in ground arith)
writen_loop_total n (c ∷ cs) (pos (suc k) ∷ rs) t h =
    ap (more (take (suc k) (c ∷ cs)))
      (writen_loop_total n (drop k cs) rs t.1 (omega (arith, length-drop k cs)))
    ∙ λ i. some (record { sent = take-append-drop (suc k) (c ∷ cs) i; value = pos n })

-- If each `write` takes at least one byte, as many calls as there are bytes are enough: `writen`
-- returns, the whole buffer has been sent, and the value is its length.
pub writen_total :
    (vptr : Bytes) (rs : List ℤ)
    → All Takes rs
    → length vptr ≤ length rs
    → writen vptr rs ≡ some (record { sent = vptr; value = pos (length vptr) })
unfolding writen
writen_total vptr rs t h = writen_loop_total (length vptr) vptr rs t h
