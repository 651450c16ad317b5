-- ===== src/Device/Served.antt =====
-- fox32/src/bus.rs serves fox32/src/cpu.rs: the two calls of the bus keep to what the processor relies
-- on, with the devices within their Rust types.
use fox.Cpu.Steady.Devices.{IoLaws}
use fox.Device.{Host}
use fox.Device.Bus.{bus_io}
use fox.Device.Typed.{HostTypes, IsTyped}
use fox.Device.Calls.{read_io-IsTyped, write_io-IsTyped}

pub bus_io-IoLaws :
    {F R W : Type 0} (host : Host F R W) → HostTypes host → IoLaws IsTyped (bus_io host)
bus_io-IoLaws host types = record {
  read_io-Keeps = λ port d h. read_io-IsTyped host types port d h;
  write_io-Keeps = λ port w b hw hm h. write_io-IsTyped host types port w b hw (hm, h);
}
