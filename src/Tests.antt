-- ===== src/Tests.antt =====
-- Concrete runs, and the theorems at concrete inputs.
mod Toy
mod OtaWitness
mod RxWitness
mod StartupWitness
mod RaceWitness
mod WorkQueueWitness
mod ToyFs
mod FilesWitness
mod EepromWitness
mod SpeedWitness
mod EthernetWitness
mod MutexWitness
mod FifoWitness
mod MessageQueueWitness
mod LifoWitness
mod PipeWitness
mod MailboxWitness
mod ShellWitness
mod KeysWitness
mod PollSignalWitness
mod ZbusWitness
mod UartDmaWitness
mod EventsWitness
