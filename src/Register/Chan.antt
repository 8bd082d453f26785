-- ===== src/Register/Chan.antt =====
-- RegisterStorage over RegisterChanBase: the initializer, the channel and its reset.
use systemoc_syste_mo_c.Common.{
  ℕ, Bool, true, false, not, Option, none, some, List, [], ◌∷◌, ◌>>◌, check, leb, length, ◌==◌,
}
use systemoc_syste_mo_c.Fifo.Store.{Storage, put, invalidate}

-- `chan_init`: whether the channel is made already, and the initial token.
pub record RegisterInit (A : Type 0) : Type 0 where
  pub chan : Bool
  pub marking : List A

pub record RegisterChan (A : Type 0) : Type 0 where
  pub token_id : ℕ
  pub actual_value : Storage A

module _ {A : Type 0} where
  unfoldable pub new_init : RegisterInit A
  new_init = record { chan = false; marking = [] }

  -- It asserts that the channel is not made yet, and that there is no initial token yet.
  unfoldable pub add : A → RegisterInit A → Option (RegisterInit A)
  add x i = do
    check (not i.chan)
    check (length i.marking == 0)
    some (record i { marking = x ∷ [] })

  -- `actualValue.put(i.marking[0])`, if it is there.
  unfoldable pub put_first : List A → Storage A → Storage A
  unfolding put
  put_first [] s = s
  put_first (x ∷ xs) s = put x s

  unfoldable pub new : RegisterInit A → Option (RegisterChan A)
  unfolding put_first
  new i = do
    check (leb (length i.marking) 1)
    some (record { token_id = 0; actual_value = put_first i.marking none })

  unfoldable pub is_valid : RegisterChan A → Bool
  is_valid c = elim c.actual_value [ none ↦ false | some t ↦ true ]

  unfoldable pub do_reset : RegisterChan A → RegisterChan A
  unfolding invalidate
  do_reset c = record c { actual_value = invalidate c.actual_value }

  -- `ChanBase::start_of_simulation`, where the call of `doReset` is virtual.
  unfoldable pub start_of_simulation : RegisterChan A → RegisterChan A
  unfolding do_reset
  start_of_simulation c = do_reset c

  -- `Storage<T, true>::get` makes a value on demand, `default` is then what `T()` gives.
  -- `Storage<T, false>::get` asserts that the place is valid; there is no `default`.
  unfoldable pub get_on_demand : Option A → Storage A → Option (A × Storage A)
  get_on_demand default (some t) = some (t, some t)
  get_on_demand none none = none
  get_on_demand (some t) none = some (t, some t)
