-- ===== src/Lsp/Residual.antt =====
-- internal/lsp/codebook.go and stability.go: the residual of a frame is a vector of 16-bit words.
use g.Base.{
  ℕ, zero, suc, ◌+◌, ◌<◌, ◌≤◌, ◌≡◌, ◌∙◌, arith, List, length, set, length-set, if-cases, ℤ, wrap,
  ◌-ℤ◌, ltb, ltb_ℤ,
}
use g.Fixed.Saturate.Laws.{IsWord16}
use g.Lsp.Stability.{at, rearrange, rearrange_loop, rearrange_adjacent, lsf_rearr_j1, lsf_rearr_j2}
use g.Lsp.Stability.Sort.{Words, Words-set}
use g.Lsp.Stability.Rounds.{add-IsWord16, sub-IsWord16}
use g.Lsp.Predictor.{combined, combine_residual}
use g.Lsp.Predictor.Words.{length-tabulate, tabulate-Words}
use g.Lsp.{Indices, residual_of}

-- Ten 16-bit words.
pub record IsVector (xs : List ℤ) : Type 0 where
  pub ten : length xs ≡ 10
  pub words : Words xs

put : {xs : List ℤ} (i : ℕ) (x : ℤ) → i < 10 → IsWord16 x → IsVector xs → IsVector (set xs i x)
put {xs} i x h word v = record {
  ten = length-set xs i x ∙ v.ten;
  words = Words-set xs i x (omega (arith, v.ten)) v.words word;
}

rearrange-IsVector :
    (p : ℕ) (j : ℤ) (lsf : List ℤ) → p < 9 → IsVector lsf → IsVector (rearrange p j lsf)
unfolding rearrange
rearrange-IsVector p j lsf h v =
    if-cases IsVector (ltb_ℤ (wrap 16 (at lsf (suc p) -ℤ at lsf p)) j)
      (λ below.
        put (suc p) _ (omega arith) (add-IsWord16 _ _) (put p _ (omega arith) (sub-IsWord16 _ _) v))
      λ apart. v

rearrange_loop-IsVector :
    (left p : ℕ) (j : ℤ) (lsf : List ℤ)
    → p + left ≤ 9
    → IsVector lsf
    → IsVector (rearrange_loop left p j lsf)
unfolding rearrange_loop
rearrange_loop-IsVector zero p j lsf h v = v
rearrange_loop-IsVector (suc left) p j lsf h v =
    rearrange_loop-IsVector left (suc p) j (rearrange p j lsf) (omega arith)
      (rearrange-IsVector p j lsf (omega arith) v)

combined-IsWord16 : (l1 l2 l3 i : ℕ) → IsWord16 (combined l1 l2 l3 i)
unfolding combined
combined-IsWord16 l1 l2 l3 i =
    if-cases IsWord16 (ltb i 5) (λ low. add-IsWord16 _ _) λ high. add-IsWord16 _ _

combine-IsVector : (l1 l2 l3 : ℕ) → IsVector (combine_residual l1 l2 l3)
unfolding combine_residual
combine-IsVector l1 l2 l3 = record {
  ten = length-tabulate 10 0 (combined l1 l2 l3);
  words = tabulate-Words 10 0 (combined l1 l2 l3) (combined-IsWord16 l1 l2 l3);
}

pub residual-IsVector : (idx : Indices) → IsVector (residual_of idx)
unfolding residual_of rearrange_adjacent
residual-IsVector idx = rearrange_loop-IsVector 9 0 lsf_rearr_j2 _ (omega arith) (
    rearrange_loop-IsVector 9 0 lsf_rearr_j1 _ (omega arith)
      (combine-IsVector idx.l1 idx.l2 idx.l3))
