-- ===== src/Sync/Load.antt =====
-- What `load_blocks` reads from the ledger: the blocks from the account's next one on, up to the
-- first that the ledger does not have, and at most a chunk of them.
use mathlib.Core.List.{append_assoc, append-nil}
use full_service.Prelude.{
  ℕ, zero, suc, ◌+◌, ◌≤◌, ◌≡◌, ◌⊎◌, refl, sym, ap, ◌∙◌, inl, inr, Option, some, List, [], ◌∷◌, ◌++◌,
  map, arith,
}
use full_service.Prelude.Lists.{length}
use full_service.Prelude.Result.{ok}
use full_service.Sync.Defs.{
  Ledger, Fetched, found, not_found, failed, BlockContents, Chunk, add_block, empty_chunk,
  load_blocks,
}

-- The ledger's blocks from `b` on start with these.
abbrev pub Stored : Ledger → ℕ → List BlockContents → Type 0
Stored ledger b [] = Unit
Stored ledger b (contents ∷ bs) =
    (ledger.get_block_contents b ≡ found contents) × Stored ledger (b + 1) bs

-- A part of each of these blocks, with the index of its block.
abbrev pub indexed : {A : Type 0} → (BlockContents → List A) → ℕ → List BlockContents → List (ℕ × A)
indexed part b [] = []
indexed part b (contents ∷ bs) = map (λ x. (b, x)) (part contents) ++ indexed part (b + 1) bs

abbrev pub last_block : Option ℕ → ℕ → List BlockContents → Option ℕ
last_block before b [] = before
last_block before b (contents ∷ bs) = some (b + length bs)

-- The chunk is that of the blocks from `b` on, at most `n` of them, added to `before`.
pub record IsLoaded (ledger : Ledger) (n b : ℕ) (before chunk : Chunk) : Type 0 where
  pub blocks : List BlockContents
  pub stored : Stored ledger b blocks
  pub bounded : length blocks ≤ n
  pub stopped : (length blocks ≡ n) ⊎ (ledger.get_block_contents (b + length blocks) ≡ not_found)
  pub end_block_index : chunk.end_block_index ≡ last_block before.end_block_index b blocks
  pub tx_outs : chunk.tx_outs ≡ before.tx_outs ++ indexed (λ c. c.outputs) b blocks
  pub key_images : chunk.key_images ≡ before.key_images ++ indexed (λ c. c.key_images) b blocks

nothing_loaded :
    (ledger : Ledger) (n b : ℕ) (before : Chunk)
    → (0 ≡ n) ⊎ (ledger.get_block_contents (b + 0) ≡ not_found)
    → IsLoaded ledger n b before before
nothing_loaded ledger n b before s = record {
  blocks = [];
  stored = tt;
  bounded = omega arith;
  stopped = s;
  end_block_index = refl;
  tx_outs = sym (append-nil before.tx_outs);
  key_images = sym (append-nil before.key_images);
}

last_block-step :
    (before : Option ℕ) (b : ℕ) (bs : List BlockContents) (contents : BlockContents)
    → last_block (some b) (b + 1) bs ≡ last_block before b (contents ∷ bs)
last_block-step before b [] contents = ap (λ n. some n) (omega arith)
last_block-step before b (c ∷ bs) contents = ap (λ n. some n) (omega arith)

block_loaded :
    (ledger : Ledger) (n b : ℕ) (contents : BlockContents) (before chunk : Chunk)
    → ledger.get_block_contents b ≡ found contents
    → IsLoaded ledger n (b + 1) (add_block b contents before) chunk
    → IsLoaded ledger (suc n) b before chunk
block_loaded ledger n b contents before chunk e h = record {
  blocks = contents ∷ h.blocks;
  stored = (e, h.stored);
  bounded = omega (arith, h.bounded);
  stopped = further h.stopped;
  end_block_index = h.end_block_index ∙ last_block-step before.end_block_index b h.blocks contents;
  tx_outs = h.tx_outs ∙ append_assoc before.tx_outs _ _;
  key_images = h.key_images ∙ append_assoc before.key_images _ _;
}
  where
    further :
        (length h.blocks ≡ n) ⊎ (ledger.get_block_contents (b + 1 + length h.blocks) ≡ not_found)
        → (suc (length h.blocks) ≡ suc n)
          ⊎ (ledger.get_block_contents (b + suc (length h.blocks)) ≡ not_found)
    further (inl p) = inl (omega arith)
    further (inr p) = inr (ap ledger.get_block_contents (omega arith) ∙ p)

load_blocks-from :
    (ledger : Ledger) (n b : ℕ) (before chunk : Chunk)
    → load_blocks ledger n b before ≡ ok chunk
    → IsLoaded ledger n b before chunk
unfolding load_blocks
load_blocks-from ledger zero b before chunk h =
    let e : before ≡ chunk = ground arith in rw (← e) (nothing_loaded ledger 0 b before (inl refl))
load_blocks-from ledger (suc n) b before chunk h =
    fetch (λ before' h'. load_blocks-from ledger n (b + 1) before' chunk h')
      (ledger.get_block_contents b) refl
  where
    fetch :
        ((before' : Chunk)
          → load_blocks ledger n (b + 1) before' ≡ ok chunk
          → IsLoaded ledger n (b + 1) before' chunk)
        → (f : Fetched) → ledger.get_block_contents b ≡ f
        → IsLoaded ledger (suc n) b before chunk
    fetch rest (found contents) e =
        block_loaded ledger n b contents before chunk e (rest _ (rw (load_blocks, e) at h))
    fetch rest not_found e =
        let same : before ≡ chunk = (let h' = rw (load_blocks, e) at h in cc) in
        rw (← same) (
          nothing_loaded ledger (suc n) b before
            (inr (ap ledger.get_block_contents (omega arith) ∙ e)))
    fetch rest failed e = absurd (let h' = rw (load_blocks, e) at h in cc)

-- The chunk that is loaded from `b` with `n` rounds holds the outputs and the key images of the
-- ledger's blocks from `b` on, each with its block, up to the first block that the ledger does not
-- have or `n` blocks, and `end_block_index` is the last of these blocks.
pub load_blocks-IsLoaded :
    (ledger : Ledger) (n b : ℕ) (chunk : Chunk)
    → load_blocks ledger n b empty_chunk ≡ ok chunk
    → IsLoaded ledger n b empty_chunk chunk
load_blocks-IsLoaded ledger n b chunk h = load_blocks-from ledger n b empty_chunk chunk h
