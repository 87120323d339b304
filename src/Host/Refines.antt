-- ===== src/Host/Refines.antt =====
-- nrf52/src/twim.rs: the host does on memory what the bus does on lists.
use async_on_embedded.Twim0.{Twim}
use async_on_embedded.Host.{Host}
