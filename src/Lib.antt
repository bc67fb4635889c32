-- ===== src/Lib.antt =====
-- Zephyr applications for the STM32H743 board.
--
-- `app90_ota` upgrades the firmware over a serial line. Bytes arrive in `uart_cb`, which an interrupt
-- calls; `main` polls `ota_process_rx`, which cuts the bytes into frames and hands each frame to
-- `ota_frame_process`, which looks up the handler of its command. The handlers share `ota_state`, write
-- slot 1 of the flash and answer by `ota_send_response`.
--
-- * Ota/Frame and Ota/Parse are `ota_frame_t`, `ota_frame_build` and `ota_frame_parse` of
--   app90_ota/src/ota_protocol.c and .h. A frame in memory is its list of bytes.
-- * Ota/World is `ota_state_t` of app90_ota/src/ota_handler.h, with the flash, the old contents of the
--   stack slot of a frame and the effects on the outside, and `ota_send_response`.
-- * Ota/Handler has the handlers of app90_ota/src/ota_handler.c, from a world to a world.
-- * Ota/Dispatch is `cmd_table` and `ota_frame_process`; Ota/Rx is `uart_cb`, `ota_protocol_init` and
--   `ota_process_rx`, in Ota/Rx/Race access by access; Ota/Rx/System is app90_ota/src/main.c.
--
-- `app81_flash_fs`, `app20_sdcard` and `app21_sdcard_speed` exercise a file system, `app10_eeprom` an
-- EEPROM on the I2C bus.
--
-- * Files is the part of Zephyr's file system API that they call, a parameter `Fs`, and the log of the
--   calls that open and close; Files/Laws has what the theorems rely on.
-- * Files/Flash is app81_flash_fs/src/main.c, and Files/SdCard is app20_sdcard/src/main.c. The loops over
--   a directory run on fuel of one more than the entries it has left. Files/Speed is
--   app21_sdcard_speed/src/main.c.
-- * Eeprom is app10_eeprom/src/main.c, with the bus as a parameter; Eeprom/Chip states the chip's laws.
-- * Ethernet is app70_ethernet/src/main.c.
-- * Mutex, Fifo, MessageQueue, Lifo, Pipe, Mailbox, Events, PollSignal and Zbus are the threads of
--   app32_mutex, app36_fifo, app35_mq, app37_lifo, app39_pipe, app38_mailbox, app33_event, app34_signal
--   and app40_zbus, each in src/main.c. Zephyr's objects are parameters with the laws that the files
--   state; threads that run side by side are step relations, in which a step is one call or one access to
--   shared memory, and what a thread prints is a log. Delays are left out, so a run is any interleaving.
-- * WorkQueue is app41_work_queue/src/main.c in the same way, and Tasks app30_task/src/main.c.
-- * The `main` of each of these applications is the list of its calls, in the child Main of its module;
--   Startup runs the calls between the steps of the threads that they have created. A thread is there
--   what it is given: its priority, and the kernel objects that its function uses.
-- * Shell is app80_shell/src/main.c, Leds app01_led, Keys app02_key_interrupt,
--   UartDma app05_uart_dma, and SpiFlash app50_spiflash, each with the driver as a parameter.
-- * Bootloader is app95_bootloader/src/main.c, which has the text of app01_led/src/main.c.
--
-- Not modelled: app31_semaphore, which is empty, the two functions of the synchronous example of
-- app38_mailbox, the build files, and the host tools of app90_ota/rust.
--
-- Numbers are natural numbers with the wrap of uint16_t and uint32_t written out. The flash driver and
-- the CRC are Zephyr's: they are the parameter `Board`, with the laws of Ota/Laws where a theorem needs
-- them. A handler reads the effects of `printk` nowhere, so they are left out. In Ota/Rx/System an
-- interrupt arrives between rounds of `main`; in Ota/Rx/Race it may arrive between any two accesses of
-- `ota_process_rx` to what it shares with `uart_cb`, and so may a store of the UART driver, which has been
-- given the buffer itself and may change any of its bytes. A parse, a frame's handler and a memmove are
-- one step each there. The loops of `ota_process_rx` and `ota_cmd_verify_firmware` run on fuel of one
-- more than the bytes they have left, which the theorems show to be enough. What a read behind the
-- receive buffer does is not modelled: it ends the run as `fault`.
pub mod Common
pub mod Ota
pub mod Files
pub mod Eeprom
pub mod Ethernet
pub mod Mutex
pub mod Fifo
pub mod MessageQueue
pub mod Lifo
pub mod Pipe
pub mod Mailbox
pub mod Shell
pub mod Keys
pub mod PollSignal
pub mod Zbus
pub mod UartDma
pub mod SpiFlash
pub mod Leds
pub mod Events
pub mod Startup
pub mod Tasks
pub mod WorkQueue
pub mod Bootloader
mod Tests
