-- ===== src/Tests/Data.antt =====
-- The data of the tests: a descriptor, frames, and a state in which an exchange succeeds.
use mathlib.Core.Option.{some-injective}
use melsec_mc_net.Prelude.{
  ℕ, zero, suc, refl, sym, ap, true, false, List, [], ◌∷◌, arith, find_index?,
}
use melsec_mc_net.Address.{AddressData}
use melsec_mc_net.Machine.{World, TxLock, RecvEvent, arrive, interrupted, accept, send_interrupted}
use melsec_mc_net.Settings.{config_of, find_connection_config}
use melsec_mc_net.Locks.Slots.{NoneHeld, HasRoom}
use melsec_mc_net.Response.Frame.{ResponseFrame, IsWellFormed}
use melsec_mc_net.Transaction.Session.{IsReady}

abbrev pub response : List ℕ → ResponseFrame
response values = record {
  h0 = 0xd0;
  h1 = 0;
  h2 = 0;
  h3 = 0xff;
  h4 = 0xff;
  h5 = 3;
  h6 = 0;
  low = 2;
  high = 0;
  end0 = 0;
  end1 = 0;
  values = values;
}

-- a success without data, one with four bytes, one with a bit, one with a single byte, and a refusal
abbrev pub done : ResponseFrame
done = response []

abbrev pub four_bytes : ResponseFrame
four_bytes = record (response (0x78 ∷ 0x56 ∷ 0x34 ∷ 0x12 ∷ [])) { low = 6 }

abbrev pub one_bit : ResponseFrame
one_bit = record (response (0x10 ∷ [])) { low = 3 }

abbrev pub one_byte : ResponseFrame
one_byte = record (response (7 ∷ [])) { low = 3 }

abbrev pub denied : ResponseFrame
denied = record (response []) { end0 = 0x51; end1 = 0xc0 }

pub done-IsWellFormed : IsWellFormed done
done-IsWellFormed = record {
  counted = refl;
  low_byte = omega arith;
  high_byte = omega arith;
  end0_byte = omega arith;
  end1_byte = omega arith;
}

pub four_bytes-IsWellFormed : IsWellFormed four_bytes
four_bytes-IsWellFormed = record {
  counted = refl;
  low_byte = omega arith;
  high_byte = omega arith;
  end0_byte = omega arith;
  end1_byte = omega arith;
}

pub one_bit-IsWellFormed : IsWellFormed one_bit
one_bit-IsWellFormed = record {
  counted = refl;
  low_byte = omega arith;
  high_byte = omega arith;
  end0_byte = omega arith;
  end1_byte = omega arith;
}

pub one_byte-IsWellFormed : IsWellFormed one_byte
one_byte-IsWellFormed = record {
  counted = refl;
  low_byte = omega arith;
  high_byte = omega arith;
  end0_byte = omega arith;
  end1_byte = omega arith;
}

pub denied-IsWellFormed : IsWellFormed denied
denied-IsWellFormed = record {
  counted = refl;
  low_byte = omega arith;
  high_byte = omega arith;
  end0_byte = omega arith;
  end1_byte = omega arith;
}

abbrev pub unused : TxLock
unused = record { fd = 0; in_use = false; tx_mutex_initialized = false; held = false }

abbrev pub taken : ℕ → TxLock
taken fd = record { fd = fd; in_use = true; tx_mutex_initialized = true; held = false }

-- The bytes come in two chunks with an interruption between them.
abbrev pub in_two : List ℕ → List RecvEvent
in_two [] = []
in_two (b ∷ []) = arrive b [] ∷ []
in_two (b ∷ c ∷ bytes) = arrive b [] ∷ interrupted ∷ arrive c bytes ∷ []

abbrev pub world : List RecvEvent → World
world events = record {
  mallocs = [];
  pthreads = [];
  sockopts = [];
  sends = accept 9 ∷ send_interrupted ∷ accept 99 ∷ [];
  recvs = events;
  sent = [];
  network_address = record { network_number = 0; station_number = 0 };
  thread_safe_initialized = false;
  dials = [];
  opened = [];
  tx_locks = unused ∷ taken 5 ∷ [];
  configs = [];
}

pub world-idle : NoneHeld (unused ∷ taken 5 ∷ [])
world-idle zero s e = ap (λ (t : TxLock). t.held) (sym (some-injective _ _ e))
world-idle (suc zero) s e = ap (λ (t : TxLock). t.held) (sym (some-injective _ _ e))
world-idle (suc (suc j)) s e = absurd cc

pub world-room : HasRoom 3 (unused ∷ taken 5 ∷ [])
world-room = (0, unused, refl, refl)

pub world-IsReady : (events : List RecvEvent) → IsReady 3 (world events)
unfolding config_of find_connection_config find_index?
world-IsReady events = record {
  positive = refl;
  memory = refl;
  threads = refl;
  idle = world-idle;
  room = world-room;
  retries = refl;
}

-- D100 and M5
abbrev pub d100 : List ℕ
d100 = b'D' ∷ b'1' ∷ b'0' ∷ b'0' ∷ []

abbrev pub m5 : List ℕ
m5 = b'M' ∷ b'5' ∷ []

abbrev pub d100_data : ℕ → AddressData
d100_data words = record {
  data_type = record {
    data_code = 0xa8;
    data_type = 1;
    ascii_code = b'D' ∷ b'*' ∷ 0 ∷ 0 ∷ 0 ∷ 0 ∷ 0 ∷ 0 ∷ 0 ∷ 0 ∷ [];
    from_base = 10;
  };
  address_start = 100;
  length = words;
}

abbrev pub m5_data : AddressData
m5_data = record {
  data_type = record {
    data_code = 0x90;
    data_type = 1;
    ascii_code = b'M' ∷ b'*' ∷ 0 ∷ 0 ∷ 0 ∷ 0 ∷ 0 ∷ 0 ∷ 0 ∷ 0 ∷ [];
    from_base = 10;
  };
  address_start = 5;
  length = 1;
}
