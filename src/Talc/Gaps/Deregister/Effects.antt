-- ===== src/Talc/Gaps/Deregister/Effects.antt =====
-- What `Talc::deregister_gap` of talc/src/talc.rs does to the memory, the flags and the bins.
use native.Mathlib.Nat.{add-zero}
use talc.Base.{ℕ, ◌+◌, ◌*◌, ◌<◌, ◌≡◌, refl, inl, inr, arith, ◌==◌, if◌then◌else◌, Bool-cases}
use talc.Counters.{account_deregister_gap}
use talc.Llist.{remove}
use talc.Talc.State.{Talc}
use talc.Talc.Avails.{clear_avails}
use talc.Talc.Avails.Flags.{flag, InWords, clear_avails-InWords}
use talc.Talc.Gaps.{deregister_gap}

clear_avails_mem : (b : ℕ) (t : Talc) → (clear_avails b t).mem ≡ t.mem
unfolding clear_avails
clear_avails_mem b t = ground arith

pub clear_avails_bins : (b : ℕ) (t : Talc) → (clear_avails b t).bins ≡ t.bins
unfolding clear_avails
clear_avails_bins b t = ground arith

module _ (t : Talc) (base b : ℕ) where
  abbrev pub link : ℕ
  link = t.bins + b * 8

  abbrev pub result : Talc
  result = deregister_gap base b t

  abbrev unlinked : ℕ → ℕ
  unlinked = remove base t.mem

  -- The state once the node is unlinked, before the flag is looked at.
  abbrev pub taken : Talc
  taken = record t {
    counters = account_deregister_gap (t.mem (base + 16)) t.counters;
    mem = unlinked;
  }

  pub result_eq : result ≡ (if unlinked link == 0 then clear_avails b taken else taken)
  unfolding deregister_gap
  result_eq = rw (add-zero base)

  pub result_mem : result.mem ≡ unlinked
  result_mem = elim (Bool-cases (unlinked link == 0)) [
    | inl e ↦ rw (result_eq, e) (clear_avails_mem b taken)
    | inr e ↦ rw (result_eq, e)
  ]

  pub result_bins : result.bins ≡ t.bins
  result_bins = elim (Bool-cases (unlinked link == 0)) [
    | inl e ↦ rw (result_eq, e) (clear_avails_bins b taken)
    | inr e ↦ rw (result_eq, e)
  ]

  pub result_words : b < 128 → InWords t → InWords result
  result_words lt w =
      let w' : InWords taken = record { low = w.low; high = w.high } in
      elim (Bool-cases (unlinked link == 0)) [
        | inl e ↦ rw (result_eq, e) (clear_avails-InWords b lt w')
        | inr e ↦ rw (result_eq, e) w'
      ]

  pub taken_flag : (c : ℕ) → flag taken c ≡ flag t c
  unfolding flag
  taken_flag c = refl
