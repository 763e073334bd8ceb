-- ===== src/Receiving.antt =====
-- Core/Application/Commands/ReceivingCommand.hpp: an example of a command, for the service type `Receiving`.
-- No code uses it.
use zem.Base.{ℕ, List, []}
use zem.Base.Int.{ℤ, pos}

pub record ReceivingCommand : Type 0 where
  pub warehouse_id : List ℕ
  pub sku : List ℕ
  pub qty : ℤ
  pub inbound_id : List ℕ

-- Made without arguments, it is empty, and of quantity 0.
abbrev pub empty_command : ReceivingCommand
empty_command = record { warehouse_id = []; sku = []; qty = pos 0; inbound_id = [] }
