-- ===== src/Ristretto/Laws.antt =====
-- RistrettoStore keeps the laws of the interface where the library keeps what it documents: a key that was
-- deleted is not found, and a closed cache finds nothing.
use cache_predict.Common.{ℕ, ◌≡◌, refl, none}
use cache_predict.Common.Words.{Bytes}
use cache_predict.Ristretto.{Ristretto, ristretto_get, ristretto_store}
use cache_predict.Store.{StoreLaws}

module _ {C : Type 0} (lib : Ristretto C)
    (deleted : (now : ℕ) (key : Bytes) (c : C) → lib.get now key (lib.del key c) ≡ none)
    (closed : (now : ℕ) (key : Bytes) (c : C) → lib.get now key (lib.close c) ≡ none) where
  get-del : (now : ℕ) (key : Bytes) (c : C) → ristretto_get lib now key (lib.del key c) ≡ none
  unfolding ristretto_get
  get-del now key c = rw (deleted now key c, ristretto_get) refl

  get-close : (now : ℕ) (key : Bytes) (c : C) → ristretto_get lib now key (lib.close c) ≡ none
  unfolding ristretto_get
  get-close now key c = rw (closed now key c, ristretto_get) refl

  pub ristretto_store-StoreLaws : StoreLaws (ristretto_store lib)
  ristretto_store-StoreLaws = record { get-del = get-del; get-close = get-close }
